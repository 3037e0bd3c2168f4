-- ===== src/Tests/Mqtt.antt =====
-- Settings that are set, loaded and saved, on a device that has two of them.
use hq_platform.Base.{
  ℕ, ◌<◌, ◌≡◌, ◌≢◌, ◌↔◌, Bool, true, List, [], ◌∷◌, none, some, arith, length, ltb, if◌then◌else◌,
}
use hq_platform.Base.Text.{codes}
use hq_platform.Protocols.MqttConfig.{
  Value, ValueType, ConfigData, Device, str_size, set_default_config, set_bool, set_string,
  set_cert, get_bool, get_string, get_cert, save,
}
use hq_platform.Protocols.MqttConfig.Settings.{
  IsValid, get_string-set_string, setters-IsValid, set_default_config-IsValid,
}
use hq_platform.Protocols.MqttConfig.Persist.{save-defined}

abbrev blank : ConfigData
blank = record {
  address = [];
  config_topic = [];
  control_topic = [];
  post_data_topic = [];
  username = [];
  password = [];
  cert = [];
  use_ssl = 0;
}

abbrev defaults : ConfigData
defaults = set_default_config blank

get_string-set_string_example :
    (((set_string defaults (codes "bob") Value.username).0 ≡ true)
      ↔ ((ValueType.string ≡ ValueType.string) × (length (codes "bob") < str_size)))
    × ((set_string defaults (codes "bob") Value.username).0 ≡ true
        → get_string (set_string defaults (codes "bob") Value.username).1 Value.username
          ≡ some (codes "bob"))
    × ((w : Value)
        → Value.username ≢ w
        → (get_string (set_string defaults (codes "bob") Value.username).1 w
            ≡ get_string defaults w)
          × (get_bool (set_string defaults (codes "bob") Value.username).1 w ≡ get_bool defaults w)
          × (get_cert (set_string defaults (codes "bob") Value.username).1 w ≡ get_cert defaults w))
get_string-set_string_example = get_string-set_string defaults (codes "bob") Value.username

setters-IsValid_example :
    IsValid (set_string defaults (codes "bob") Value.certificate).1
    × IsValid (set_bool defaults true Value.certificate).1
    × IsValid (set_cert defaults (65 ∷ 66 ∷ []) 3 Value.certificate).1
setters-IsValid_example =
    setters-IsValid defaults (codes "bob") true (65 ∷ 66 ∷ []) 3 Value.certificate (omega arith)
      (set_default_config-IsValid blank)

-- The device has no number, a certificate of two bytes, and one text, the one written last.
abbrev device : Device
device = record {
  State = List ℕ;
  open_read = λ d. true;
  open_write = λ d. true;
  get_u8 = λ d name. none;
  get_str = λ d name size. if ltb (length d) size then some d else none;
  set_u8 = λ d name b. none;
  set_str = λ d name s. some s;
  commit = λ d. some d;
  read_file = λ d n. some (65 ∷ 66 ∷ []);
  write_file = λ d s. s;
}

save-defined_example :
    (result : Bool) × (d' : List ℕ) × (save device defaults (some 1) [] ≡ some (result, some 1, d'))
save-defined_example = save-defined device defaults (some 1) [] (set_default_config-IsValid blank)
