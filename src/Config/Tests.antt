-- ===== src/Config/Tests.antt =====
-- The theorems about config at concrete inputs.
use go_ldlm.Config.Types.{
  Parsers, text, file, Memory, anonymous, duration, field, number, words, StructField, no_fields,
  store, Fields,
}
use go_ldlm.Errors.{other}
use go_ldlm.Config.{Options, Host}
use go_ldlm.Common.{◌==◌, inl, inr, true, none, some, [], ◌∷◌, if◌then◌else◌, pos}

abbrev parsers : Parsers
parsers = record {
  parse_duration = λ s. if s == "5s" then some (pos 5000000000) else none;
  parse_uint32 = λ s. inl (other s);
  parse_int32 = λ s. inl (other s);
  parse_bool = λ s. inr (s == "true");
  to_lower = λ s. s;
}

-- The flag "listen" is given, and so are the variables of both fields.
abbrev host : Host
host = record {
  getenv = λ s. if s == "LDLM_listen" then "b:2" else if s == "LDLM_idle" then "5s" else "";
  read_file = λ name. inl (other name);
  extension = λ name. name;
  base = λ name. name;
  unmarshal_json = λ s. inr [];
  unmarshal_yaml = λ s. inr [];
  to_snake = λ s. s;
  to_screaming_snake = λ s. s;
  to_camel = λ s. s;
  field_by_name = λ t s. none;
  add_flag = λ fl f. inr (f ∷ fl);
  parse_flags = λ fl args. inr (λ s. if s == "listen" then some "c:3" else none);
  string_flag = λ name short value args. value;
}

abbrev opts : Options
opts = record { env_prefix = "LDLM_"; args = "--listen=c:3" ∷ [] }

abbrev listen : StructField
listen = record {
  name = "listen";
  exported = true;
  kind = text;
  tags = inr (record { desc = some "address"; dflt = some "a:1"; short = none });
  addr = 0;
}

abbrev idle : StructField
idle = record {
  name = "idle";
  exported = true;
  kind = duration;
  tags = inr (record { desc = some "idle time"; dflt = some "5s"; short = some "i" });
  addr = 1;
}

abbrev config_file : StructField
config_file = record {
  name = "file";
  exported = true;
  kind = file;
  tags = inr (record { desc = some "file"; dflt = some ""; short = some "c" });
  addr = 2;
}

abbrev fields : Fields
fields = field config_file (field listen (anonymous true (field idle no_fields) no_fields))

abbrev zeros : Memory
zeros a = number (pos 0)

abbrev settings : Memory
settings = store 0 (words "c:3") (
    store 1 (number (pos 5000000000)) (
      store 0 (words "b:2")
        (store 1 (number (pos 5000000000)) (store 0 (words "a:1") (store 2 (words "") zeros)))))
