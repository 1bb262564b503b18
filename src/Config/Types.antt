-- ===== src/Config/Types.antt =====
-- config/type_handlers.go and the data of config/config.go. Parameters are what the parsing of a text
-- takes from packages time, strconv and strings.
-- The types of fields that have a handler, and the others.
use Prim.Native.String.{◌++◌ as ◌<>◌}
use go_ldlm.Errors.{Error, error_message, other}
use go_ldlm.Common.{
  ℕ, String, ◌==◌, ◌⊎◌, inl, inr, Bool, Option, none, some, eqb, if◌then◌else◌, ℤ, pos, negsuc,
}

pub data Kind : Type 0 where
  duration text file uint32 int32 boolean level unsupported : Kind

-- Durations and levels are int64.
pub data Value : Type 0 where
  number : ℤ → Value
  words : String → Value
  flag : Bool → Value

pub record Parsers : Type 0 where
  pub parse_duration : String → Option ℤ
  pub parse_uint32 : String → Error ⊎ ℕ  -- strconv.ParseUint(s, 10, 32)
  pub parse_int32 : String → Error ⊎ ℤ  -- strconv.ParseInt(s, 10, 32)
  pub parse_bool : String → Error ⊎ Bool
  pub to_lower : String → String

abbrev pub log_level : String → Option ℤ
log_level s =
    if s == "debug"
    then some (negsuc 3)
    else if s == "info"
    then some (pos 0)
    else if s == "warn"
    then some (pos 4)
    else if s == "error"
    then some (pos 8)
    else none

abbrev pub unable : String → String → Error → Error
unable what s e =
    other ("unable to parse " <> (what <> (" value: " <> (s <> (": " <> error_message e)))))

module _ (p : Parsers) where
  set_uint32 : String → Error ⊎ ℕ → Error ⊎ Value
  set_uint32 s (inl e) = inl (unable "uint32" s e)
  set_uint32 s (inr n) = inr (number (pos n))

  set_int32 : String → Error ⊎ ℤ → Error ⊎ Value
  set_int32 s (inl e) = inl (unable "int32" s e)
  set_int32 s (inr i) = inr (number i)

  set_bool : String → Error ⊎ Bool → Error ⊎ Value
  set_bool s (inl e) = inl (unable "bool" s e)
  set_bool s (inr b) = inr (flag b)

  set_number : Error → Option ℤ → Error ⊎ Value
  set_number e none = inl e
  set_number e (some i) = inr (number i)

  -- setFromString with setFromStringMap: the value that a text gives a field.
  unfoldable pub set_from_string : Kind → String → Error ⊎ Value
  unfolding set_uint32 set_int32 set_bool set_number
  set_from_string duration s = set_number (other ("invalid duration: " <> s)) (p.parse_duration s)
  set_from_string text s = inr (words s)
  set_from_string file s = inr (words s)
  set_from_string uint32 s = set_uint32 s (p.parse_uint32 s)
  set_from_string int32 s = set_int32 s (p.parse_int32 s)
  set_from_string boolean s = set_bool s (p.parse_bool s)
  set_from_string level s =
      set_number (other ("invalid value for log level '" <> (s <> "'"))) (log_level (p.to_lower s))
  set_from_string unsupported s = inl (other "unsupported setFromStringMap type")

-- The tags of a field, by structtag; `Parse` may fail.
pub record Tags : Type 0 where
  pub desc : Option String
  pub dflt : Option String
  pub short : Option String

-- A reflect.StructField, with the address of the field in the struct.
pub record StructField : Type 0 where
  pub name : String
  pub exported : Bool
  pub kind : Kind
  pub tags : Error ⊎ Tags
  pub addr : ℕ

-- The fields of a struct type, in their order; an anonymous field is a struct of its own.
pub data Fields : Type 0 where
  no_fields : Fields
  field : StructField → Fields → Fields
  anonymous : Bool → Fields → Fields → Fields

-- The struct itself: the value at each address.
abbrev pub Memory : Type 0
Memory = ℕ → Value

abbrev pub store : ℕ → Value → Memory → Memory
store a v m b = if eqb a b then v else m b

-- A callback gives an error for a panic; its Boolean stops the visit of the struct at hand.
unfoldable pub visit :
    {S : Type 0} → (StructField → S → Error ⊎ (S × Bool)) → Fields → S → Error ⊎ S
visit f no_fields s = inr s
visit f (field fld rest) s =
    if fld.exported
    then elim (f fld s) [
      | inl e ↦ inl e
      | inr (s', stop) ↦ if stop then inr s' else visit f rest s'
    ]
    else visit f rest s
visit f (anonymous exported sub rest) s =
    if exported
    then elim (visit f sub s) [ inl e ↦ inl e | inr s' ↦ visit f rest s' ]
    else visit f rest s
