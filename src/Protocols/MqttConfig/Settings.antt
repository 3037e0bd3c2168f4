-- ===== src/Protocols/MqttConfig/Settings.antt =====
-- Setting and reading the values: which calls are accepted, what they change, and that no buffer is
-- overrun.
use hq_platform.Base.{
  ℕ, zero, suc, ◌+◌, ◌-◌, ◌%◌, ◌^◌, ◌<◌, ◌≤◌, ◌≡◌, ◌≢◌, ◌↔◌, ◌⊎◌, inl, inr, refl, ◌∙◌, Bool, true,
  false, List, none, some, arith, length, get_elem?, replicate, length-replicate, blit, slice,
  length-blit, slice-blit_self, slice-blit_before, slice-blit_behind, get_elem?-blit_behind, ltb,
  if◌then◌else◌, Bool-cases,
}
use hq_platform.Base.Text.{CString}
use hq_platform.Protocols.MqttConfig.{
  Value, ValueType, ConfigData, str_size, cert_max_size, value_type, default_value, text_at,
  put_text, set_default_config, set_bool, set_string, set_cert, get_bool, get_string, get_cert,
}

-- Every string fits its buffer, and the certificate's block ends with a byte 0.
pub record IsValid (c : ConfigData) : Type 0 where
  pub strings : (v : Value) → length (text_at c v) < str_size
  pub block : length c.cert ≡ cert_max_size
  pub ended : get_elem? c.cert 5119 ≡ some 0

-- The values have buffers of their own.
put_text-keeps :
    (c : ConfigData) (v w : Value) (s : CString)
    → v ≢ w
    → (get_string (put_text c v s) w ≡ get_string c w)
      × (get_bool (put_text c v s) w ≡ get_bool c w)
      × (get_cert (put_text c v s) w ≡ get_cert c w)
unfolding get_string get_bool get_cert
put_text-keeps c Value.address w s ne = ground arith
put_text-keeps c _ w s ne = ground arith

put_text-get_string :
    (c : ConfigData) (v : Value) (s : CString)
    → value_type v ≡ ValueType.string
    → get_string (put_text c v s) v ≡ some s
unfolding get_string
put_text-get_string c Value.ssl s h = cc
put_text-get_string c Value.certificate s h = cc
put_text-get_string c _ s h = refl

set_string_cases :
    (c : ConfigData) (text : CString) (v : Value)
    → ((set_string c text v ≡ (true, put_text c v text))
        × (value_type v ≡ ValueType.string)
        × (length text < str_size))
      ⊎ ((set_string c text v ≡ (false, c))
          × ((value_type v ≡ ValueType.string) → str_size ≤ length text))
unfolding set_string
set_string_cases c text Value.ssl = inr (refl, λ h. cc)
set_string_cases c text Value.certificate = inr (refl, λ h. cc)
set_string_cases c text _ = elim (Bool-cases (ltb (length text) str_size)) [
  | inl fits ↦ rw fits (inl (refl, refl, ground arith))
  | inr long ↦ rw long (inr (refl, λ h. ground arith))
]

-- `MQTTConfig_SetString` accepts exactly the strings that fit, on values of that type; then
-- `MQTTConfig_GetString` returns the string, and every other value reads as before.
pub get_string-set_string :
    (c : ConfigData) (text : CString) (v : Value)
    → (((set_string c text v).0 ≡ true)
        ↔ ((value_type v ≡ ValueType.string) × (length text < str_size)))
      × ((set_string c text v).0 ≡ true → get_string (set_string c text v).1 v ≡ some text)
      × ((w : Value)
          → v ≢ w
          → (get_string (set_string c text v).1 w ≡ get_string c w)
            × (get_bool (set_string c text v).1 w ≡ get_bool c w)
            × (get_cert (set_string c text v).1 w ≡ get_cert c w))
get_string-set_string c text v = elim (set_string_cases c text v) [
  | inl (done, kind, fits) ↦ rw done (
    (λ h. (kind, fits), λ h. refl),
    λ h. put_text-get_string c v text kind,
    λ w ne. put_text-keeps c v w text ne,
  )
  | inr (refused, long) ↦
      rw refused
        ((λ h. cc, λ h. absurd (omega (arith, long h.0, h.1))), λ h. cc, λ w ne. (refl, refl, refl))
]

put_text-short :
    (c : ConfigData) (v w : Value) (s : CString)
    → length s < str_size
    → length (text_at c w) < str_size
    → length (text_at (put_text c v s) w) < str_size
put_text-short c Value.address w s h k = ground arith
put_text-short c _ w s h k = ground arith

put_text-cert {ℓ} :
    (c : ConfigData) (v : Value) (s : CString) (P : List ℕ → Type ℓ)
    → P c.cert
    → P (put_text c v s).cert
put_text-cert c Value.address s P h = h
put_text-cert c _ s P h = h

text_at-cert :
    (c : ConfigData) (w : Value) (b : List ℕ)
    → length (text_at c w) < str_size
    → length (text_at (record c { cert = b }) w) < str_size
text_at-cert c Value.address b h = h
text_at-cert c _ b h = h

text_at-ssl :
    (c : ConfigData) (w : Value) (b : ℕ)
    → length (text_at c w) < str_size
    → length (text_at (record c { use_ssl = b }) w) < str_size
text_at-ssl c Value.address b h = h
text_at-ssl c _ b h = h

pub put_text-IsValid :
    (c : ConfigData) (v : Value) (s : CString)
    → length s < str_size
    → IsValid c
    → IsValid (put_text c v s)
put_text-IsValid c v s h i = record {
  strings = λ w. put_text-short c v w s h (i.strings w);
  block = put_text-cert c v s (λ b. length b ≡ cert_max_size) i.block;
  ended = put_text-cert c v s (λ b. get_elem? b 5119 ≡ some 0) i.ended;
}

set_cert_cases :
    (c : ConfigData) (bytes : List ℕ) (offset : ℕ) (v : Value)
    → length bytes + offset < 2 ^ 64
    → ((set_cert c bytes offset v ≡ (true, record c { cert = blit c.cert offset bytes }))
        × (offset + length bytes < cert_max_size))
      ⊎ (set_cert c bytes offset v ≡ (false, c))
unfolding set_cert
set_cert_cases c bytes offset Value.certificate small =
    elim (Bool-cases (ltb ((length bytes + offset) % 2 ^ 64) cert_max_size)) [
      | inl fits ↦ rw fits (inl (refl, ground arith))
      | inr long ↦ rw long (inr refl)
    ]
set_cert_cases c bytes offset _ small = inr refl

pub set_cert-IsValid :
    (c : ConfigData) (bytes : List ℕ) (offset : ℕ)
    → offset + length bytes < cert_max_size
    → IsValid c
    → IsValid (record c { cert = blit c.cert offset bytes })
set_cert-IsValid c bytes offset fits i = record {
  strings = λ w. text_at-cert c w (blit c.cert offset bytes) (i.strings w);
  block = length-blit c.cert offset bytes ∙ i.block;
  ended = get_elem?-blit_behind c.cert offset bytes 5119 (omega arith) ∙ i.ended;
}

pub set_ssl-IsValid : (c : ConfigData) (b : ℕ) → IsValid c → IsValid (record c { use_ssl = b })
set_ssl-IsValid c b i = record {
  strings = λ w. text_at-ssl c w b (i.strings w);
  block = i.block;
  ended = i.ended;
}

set_bool-IsValid :
    (c : ConfigData) (value : Bool) (v : Value) → IsValid c → IsValid (set_bool c value v).1
unfolding set_bool
set_bool-IsValid c value Value.ssl i = set_ssl-IsValid c (if value then 1 else 0) i
set_bool-IsValid c value _ i = i

-- `MQTTConfig_SetString`, `MQTTConfig_SetBool` and, if its sum does not wrap, `MQTTConfig_SetCert`
-- never overrun a buffer: the strings still fit, and the certificate still ends within its block.
pub setters-IsValid :
    (c : ConfigData) (text : CString) (value : Bool) (bytes : List ℕ) (offset : ℕ) (v : Value)
    → length bytes + offset < 2 ^ 64
    → IsValid c
    → IsValid (set_string c text v).1
      × IsValid (set_bool c value v).1
      × IsValid (set_cert c bytes offset v).1
setters-IsValid c text value bytes offset v small i = (
  elim (set_string_cases c text v) [
    | inl (done, kind, fits) ↦ rw done (put_text-IsValid c v text fits i)
    | inr (refused, long) ↦ rw refused i
  ],
  set_bool-IsValid c value v i,
  elim (set_cert_cases c bytes offset v small) [
    | inl (done, fits) ↦ rw done (set_cert-IsValid c bytes offset fits i)
    | inr refused ↦ rw refused i
  ],
)

-- An accepted piece of the certificate lies within the block and reads back, if its sum does not
-- wrap; the other bytes stay.
pub set_cert-slice :
    (c : ConfigData) (bytes : List ℕ) (offset : ℕ) (v : Value)
    → length bytes + offset < 2 ^ 64
    → IsValid c
    → (set_cert c bytes offset v).0 ≡ true
    → (offset + length bytes < cert_max_size)
      × (slice (set_cert c bytes offset v).1.cert offset (length bytes) ≡ bytes)
      × ((from n : ℕ)
          → ((from + n ≤ offset) ⊎ (offset + length bytes ≤ from))
          → slice (set_cert c bytes offset v).1.cert from n ≡ slice c.cert from n)
set_cert-slice c bytes offset v small i h = elim (set_cert_cases c bytes offset v small) [
  | inl (done, fits) ↦ rw done (
    fits,
    slice-blit_self c.cert offset bytes (omega (arith, i.block)),
    λ from n apart. elim apart [
      | inl before ↦ slice-blit_before c.cert offset bytes from n before
      | inr behind ↦ slice-blit_behind c.cert offset bytes from n behind
    ],
  )
  | inr refused ↦ cc
]

-- `MQTTConfig_SetCert` accepts every piece of 1 to 5120 bytes at the offset for which the sum of
-- `size_t` comes round to 0, which is above the size of the block.
pub set_cert-wraps :
    (c : ConfigData) (bytes : List ℕ)
    → 0 < length bytes
    → length bytes ≤ cert_max_size
    → ((set_cert c bytes (2 ^ 64 - length bytes) Value.certificate).0 ≡ true)
      × (cert_max_size < 2 ^ 64 - length bytes)
unfolding set_cert
set_cert-wraps c bytes h k = ground arith

-- `_set_default_config` gives every value its default, whatever was set before: strings theirs, the
-- flag false, the certificate a block of zeros.
pub set_default_config-defaults :
    (c : ConfigData) (v : Value)
    → (get_string (set_default_config c) v
        ≡ (elim (value_type v) [ ValueType.string ↦ some (default_value v) | _ ↦ none ]))
      × (get_bool (set_default_config c) v
          ≡ (elim (value_type v) [ ValueType.bool ↦ some false | _ ↦ none ]))
      × (get_cert (set_default_config c) v
          ≡ (elim (value_type v) [ ValueType.cert ↦ some (replicate cert_max_size 0) | _ ↦ none ]))
unfolding set_default_config get_string get_bool get_cert
set_default_config-defaults c Value.address = (refl, refl, refl)
set_default_config-defaults c _ = (refl, refl, refl)

pub default-short : (v : Value) → length (default_value v) < str_size
default-short Value.address = omega arith
default-short _ = omega arith

default_at-short :
    (c : ConfigData) (v : Value) → length (text_at (set_default_config c) v) < str_size
unfolding set_default_config
default_at-short c Value.address = omega arith
default_at-short c _ = omega arith

replicate-last : (n : ℕ) → get_elem? {A = ℕ} (replicate (suc n) 0) n ≡ some 0
replicate-last zero = refl
replicate-last (suc n) = replicate-last n

-- The defaults are in order.
pub set_default_config-IsValid : (c : ConfigData) → IsValid (set_default_config c)
unfolding set_default_config
set_default_config-IsValid c = record {
  strings = λ v. default_at-short c v;
  block = length-replicate {A = ℕ} 5120 0;
  ended = replicate-last 5119;
}
