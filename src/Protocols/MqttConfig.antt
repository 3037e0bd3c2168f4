-- ===== src/Protocols/MqttConfig.antt =====
-- The MQTT settings of src/protocols/mqtt_config.c: eight values in fixed buffers, kept in the
-- non-volatile storage of the device, and the certificate in a file.
pub mod Settings
pub mod Persist
use Prim.Native.String.{String}
use hq_platform.Base.{
  ℕ, zero, suc, ◌+◌, ◌-◌, ◌%◌, ◌^◌, Bool, true, false, ◌&&◌, List, [], ◌∷◌, Option, none, some,
  length, take, replicate, ltb, ◌==◌, if◌then◌else◌, blit,
}
use hq_platform.Base.Text.{CString, codes}

-- MQTT_CONFIG_STR_SIZE and MQTT_CERT_MAX_SIZE
abbrev pub str_size : ℕ
str_size = 64

abbrev pub cert_max_size : ℕ
cert_max_size = 5120

-- `value_type_t`
pub data ValueType : Type 0 where
  int bool string cert : ValueType

-- `mqtt_config_value_t`, below MQTT_CONFIG_VALUE_LAST, which the functions assert
pub data Value : Type 0 where
  address ssl topic_prefix post_data_topic username password client_id certificate : Value

-- `config_data_t`: the strings up to their terminator, the certificate as its whole block
pub record ConfigData : Type 0 where
  pub address : CString
  pub config_topic : CString
  pub control_topic : CString
  pub post_data_topic : CString
  pub username : CString
  pub password : CString
  pub cert : List ℕ
  pub use_ssl : ℕ

-- The table `config_values`.
abbrev pub all_values : List Value
all_values =
    Value.address ∷ ssl ∷ topic_prefix ∷ Value.post_data_topic ∷ Value.username ∷ Value.password
    ∷ client_id ∷ certificate ∷ []

abbrev pub value_type : Value → ValueType
value_type ssl = bool
value_type certificate = ValueType.cert
value_type _ = string

abbrev pub value_name : Value → String
value_name Value.address = "address"
value_name ssl = "ssl"
value_name topic_prefix = "prefix"
value_name Value.post_data_topic = "post"
value_name Value.username = "user"
value_name Value.password = "pass"
value_name client_id = "client_id"
value_name certificate = "cert"

abbrev pub default_value : Value → CString
default_value Value.address = codes "mqtt://192.168.1.169:1883"
default_value topic_prefix = codes "/config/"
default_value Value.post_data_topic = codes "/post_data/"
default_value _ = []

-- The buffer of a string value, read and written.
abbrev pub text_at : ConfigData → Value → CString
text_at c Value.address = c.address
text_at c topic_prefix = c.config_topic
text_at c Value.post_data_topic = c.post_data_topic
text_at c Value.username = c.username
text_at c Value.password = c.password
text_at c client_id = c.control_topic
text_at c ssl = []
text_at c certificate = []

abbrev pub put_text : ConfigData → Value → CString → ConfigData
put_text c Value.address s = record c { address = s }
put_text c topic_prefix s = record c { config_topic = s }
put_text c Value.post_data_topic s = record c { post_data_topic = s }
put_text c Value.username s = record c { username = s }
put_text c Value.password s = record c { password = s }
put_text c client_id s = record c { control_topic = s }
put_text c ssl s = c
put_text c certificate s = c

-- One round of `_set_default_config`, and the loop.
unfoldable pub set_default : Value → ConfigData → ConfigData
set_default v c = elim (value_type v) [
  | int ↦ c
  | bool ↦ record c { use_ssl = 0 }
  | string ↦ put_text c v (default_value v)
  | cert ↦ record c { cert = replicate cert_max_size 0 }
]

unfoldable pub set_default_from : List Value → ConfigData → ConfigData
unfolding set_default
set_default_from [] c = c
set_default_from (v ∷ vs) c = set_default_from vs (set_default v c)

unfoldable pub set_default_config : ConfigData → ConfigData
unfolding set_default_from
set_default_config c = set_default_from all_values c

-- `MQTTConfig_SetInt`: no value has that type.
unfoldable pub set_int : ConfigData → ℕ → Value → Bool × ConfigData
set_int c value v = (false, c)

-- `MQTTConfig_SetBool`
unfoldable pub set_bool : ConfigData → Bool → Value → Bool × ConfigData
set_bool c value v = elim (value_type v) [
  | bool ↦ (true, record c { use_ssl = if value then 1 else 0 })
  | _ ↦ (false, c)
]

-- `MQTTConfig_SetString`
unfoldable pub set_string : ConfigData → CString → Value → Bool × ConfigData
set_string c text v = elim (value_type v) [
  | string ↦ if ltb (length text) str_size then (true, put_text c v text) else (false, c)
  | _ ↦ (false, c)
]

-- `MQTTConfig_SetCert`; the sum is one of `size_t`, and the length is that of the bytes.
unfoldable pub set_cert : ConfigData → List ℕ → ℕ → Value → Bool × ConfigData
set_cert c bytes offset v = elim (value_type v) [
  | cert ↦
      if ltb ((length bytes + offset) % 2 ^ 64) cert_max_size
      then (true, record c { cert = blit c.cert offset bytes })
      else (false, c)
  | _ ↦ (false, c)
]

-- `MQTTConfig_GetInt`, `MQTTConfig_GetBool`, `MQTTConfig_GetString` and `MQTTConfig_GetCert`; `none`
-- is the result false or NULL.
unfoldable pub get_int : ConfigData → Value → Option ℕ
get_int c v = none

unfoldable pub get_bool : ConfigData → Value → Option Bool
get_bool c v = elim (value_type v) [
  | bool ↦ some (if c.use_ssl == 0 then false else true)
  | _ ↦ none
]

unfoldable pub get_string : ConfigData → Value → Option CString
get_string c v = elim (value_type v) [ string ↦ some (text_at c v) | _ ↦ none ]

unfoldable pub get_cert : ConfigData → Value → Option (List ℕ)
get_cert c v = elim (value_type v) [ cert ↦ some c.cert | _ ↦ none ]

-- `strlen` and the text of a block; `none` where no byte of it ends the text.
unfoldable pub text_in : List ℕ → Option CString
text_in [] = none
text_in (b ∷ block) =
    let rest = text_in block in
    if b == 0 then some [] else (elim rest [ none ↦ none | some s ↦ some (b ∷ s) ])

-- What the code uses of the device: the storage (`nvs_*`) and the file of the certificate. `none` is
-- an error, and a text read from the storage has to fit the buffer that is passed.
pub record Device : Type 1 where
  pub State : Type 0
  pub open_read : State → Bool
  pub open_write : State → Bool
  pub get_u8 : State → String → Option ℕ
  pub get_str : State → String → ℕ → Option CString
  pub set_u8 : State → String → ℕ → Option State
  pub set_str : State → String → CString → Option State
  pub commit : State → Option State
  -- `fopen` and `fread` of at most so many bytes; `unlink`, `fopen` and `fwrite`
  pub read_file : State → ℕ → Option (List ℕ)
  pub write_file : State → CString → State

module _ (D : Device) where
  -- One round of `_read_data`, and the loop.
  unfoldable pub read_value : D.State → Value → ConfigData → ConfigData
  read_value d v c = elim (value_type v) [
    | int ↦ c
    | bool ↦ elim (D.get_u8 d (value_name v)) [
      | none ↦ record c { use_ssl = 0 }
      | some b ↦ record c { use_ssl = b }
    ]
    | string ↦ elim (D.get_str d (value_name v) str_size) [
      | none ↦ put_text c v (default_value v)
      | some s ↦ put_text c v s
    ]
    | cert ↦ elim (D.read_file d cert_max_size) [
      | none ↦ c
      | some bytes ↦ record c { cert = blit c.cert 0 bytes }
    ]
  ]

  unfoldable pub read_from : D.State → List Value → ConfigData → ConfigData
  read_from d [] c = c
  read_from d (v ∷ vs) c = read_from d vs (read_value d v c)

  unfoldable pub read_data : D.State → ConfigData → Bool × ConfigData
  read_data d c = if D.open_read d then (true, read_from d all_values c) else (false, c)

  -- `MQTTConfig_Init`
  unfoldable pub init : D.State → ConfigData → ConfigData
  init d c = let (found, c') = read_data d c in if found then c' else set_default_config c

  -- A failed write is only reported, and the loop goes on.
  abbrev or_same : D.State → Option D.State → D.State
  or_same d none = d
  or_same d (some d') = d'

  -- One round of `_save_data`, and the loop; `none` is a certificate without an end, whose `strlen`
  -- reads past its block.
  unfoldable pub save_value : ConfigData → Value → D.State → Option D.State
  save_value c v d = elim (value_type v) [
    | int ↦ some d
    | bool ↦ some (or_same d (D.set_u8 d (value_name v) c.use_ssl))
    | string ↦ some (or_same d (D.set_str d (value_name v) (text_at c v)))
    | cert ↦ elim (text_in c.cert) [ none ↦ none | some s ↦ some (D.write_file d s) ]
  ]

  unfoldable pub save_from : ConfigData → List Value → D.State → Option D.State
  save_from c [] d = some d
  save_from c (v ∷ vs) d = elim (save_value c v d) [ none ↦ none | some d' ↦ save_from c vs d' ]

  abbrev pub committed : D.State → Bool × D.State
  committed d = elim (D.commit d) [ none ↦ (false, d) | some d' ↦ (true, d') ]

  unfoldable pub save_data : ConfigData → D.State → Option (Bool × D.State)
  save_data c d =
      if D.open_write d
      then (elim (save_from c all_values d) [ none ↦ none | some d' ↦ some (committed d') ])
      else some (false, d)

  -- `MQTTConfig_Save`, with whether the callback that was set is called; it is set by
  -- `MQTTConfig_SetCallback`.
  unfoldable pub save : ConfigData → Option ℕ → D.State → Option (Bool × Option ℕ × D.State)
  save c callback d = elim (save_data c d) [
    | none ↦ none
    | some (result, d') ↦ some (result, callback, d')
  ]
