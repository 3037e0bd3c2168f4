-- ===== src/Protocols/MqttConfig/Persist.antt =====
-- Loading the settings from the device and saving them there.
use Prim.Native.String.{String}
use hq_platform.Base.{
  ℕ, zero, suc, ◌<◌, ◌≡◌, ◌≢◌, inl, inr, refl, Bool, false, List, [], ◌∷◌, Option, none, some,
  arith, length, get_elem?, Bool-cases, Option-cases,
}
use hq_platform.Base.Text.{CString}
use hq_platform.Protocols.MqttConfig.{
  Value, ConfigData, Device, str_size, cert_max_size, value_name, default_value, all_values,
  text_in, read_value, read_from, read_data, init, save_value, save_from, save_data, save,
  committed,
}
use hq_platform.Protocols.MqttConfig.Settings.{
  IsValid, put_text-IsValid, set_cert-IsValid, set_ssl-IsValid, default-short,
  set_default_config-IsValid,
}

-- A block with a byte 0 holds a text.
text_in-ended : (block : List ℕ) (i : ℕ) → get_elem? block i ≡ some 0 → text_in block ≢ none
unfolding text_in
text_in-ended [] i h = cc
text_in-ended (b ∷ block) zero h = ground arith
text_in-ended (b ∷ block) (suc i) h = ground (arith, text_in-ended block i h)

is_some {ℓ} : {A : Type ℓ} (a : A) → some a ≢ none
is_some a e = cc

module _ (D : Device) where
  -- What the code relies on: a text that is read fits the buffer of the call with its terminator, and
  -- the file of the certificate is shorter than the block.
  pub record Fits (d : D.State) : Type 0 where
    pub text_fits :
        (name : String) (size : ℕ) (s : CString) → D.get_str d name size ≡ some s → length s < size
    pub file_fits :
        (bytes : List ℕ) → D.read_file d cert_max_size ≡ some bytes → length bytes < cert_max_size

  read_value-IsValid :
      (d : D.State) (v : Value) (c : ConfigData) → Fits d → IsValid c → IsValid (read_value D d v c)
  unfolding read_value
  read_value-IsValid d Value.ssl c f i = elim (Option-cases (D.get_u8 d "ssl")) [
    | inl missing ↦ rw missing (set_ssl-IsValid c 0 i)
    | inr (b, found) ↦ rw found (set_ssl-IsValid c b i)
  ]
  read_value-IsValid d Value.certificate c f i = elim (Option-cases (D.read_file d cert_max_size)) [
    | inl missing ↦ rw missing i
    | inr (bytes, found) ↦
        rw found (set_cert-IsValid c bytes 0 (omega (arith, f.file_fits bytes found)) i)
  ]
  read_value-IsValid d v c f i = elim (Option-cases (D.get_str d (value_name v) str_size)) [
    | inl missing ↦ rw missing (put_text-IsValid c v (default_value v) (default-short v) i)
    | inr (s, found) ↦
        rw found (put_text-IsValid c v s (f.text_fits (value_name v) str_size s found) i)
  ]

  read_from-IsValid :
      (d : D.State) (vs : List Value) (c : ConfigData)
      → Fits d
      → IsValid c
      → IsValid (read_from D d vs c)
  unfolding read_from
  read_from-IsValid d [] c f i = i
  read_from-IsValid d (v ∷ vs) c f i =
      read_from-IsValid d vs (read_value D d v c) f (read_value-IsValid d v c f i)

  pub init-IsValid : (d : D.State) (c : ConfigData) → Fits d → IsValid c → IsValid (init D d c)
  unfolding init read_data
  init-IsValid d c f i = elim (Bool-cases (D.open_read d)) [
    | inl found ↦ rw found (read_from-IsValid d all_values c f i)
    | inr missing ↦ rw missing (set_default_config-IsValid c)
  ]

  save_value-defined :
      (c : ConfigData) (v : Value) (d : D.State) → IsValid c → save_value D c v d ≢ none
  unfolding save_value
  save_value-defined c Value.certificate d i e = elim (Option-cases (text_in c.cert)) [
    | inl bad ↦ text_in-ended c.cert 5119 i.ended bad
    | inr (s, found) ↦ is_some (D.write_file d s) (rw (found, save_value) at e)
  ]
  save_value-defined c _ d i e = cc

  save_from-defined :
      (c : ConfigData) (vs : List Value) (d : D.State) → IsValid c → save_from D c vs d ≢ none
  unfolding save_from
  save_from-defined c [] d i e = cc
  save_from-defined c (v ∷ vs) d i e = elim (Option-cases (save_value D c v d)) [
    | inl bad ↦ save_value-defined c v d i bad
    | inr (d', saved) ↦ save_from-defined c vs d' i (rw (saved, save_from) at e)
  ]

  -- `MQTTConfig_Save` of settings that are in order never reads past the certificate's block,
  -- whatever the storage answers, and it calls the callback that is set.
  pub save-defined :
      (c : ConfigData) (callback : Option ℕ) (d : D.State)
      → IsValid c
      → (result : Bool) × (d' : D.State) × (save D c callback d ≡ some (result, callback, d'))
  unfolding save save_data
  save-defined c callback d i = elim (Bool-cases (D.open_write d)) [
    | inl opened ↦ elim (Option-cases (save_from D c all_values d)) [
      | inl bad ↦ absurd (save_from-defined c all_values d i bad)
      | inr (d', saved) ↦
          ((committed D d').0, (committed D d').1, rw (save, save_data, opened, saved) refl)
    ]
    | inr refused ↦ (false, d, rw (save, save_data, refused) refl)
  ]
