-- ===== src/Config.antt =====
-- config/config.go: the settings of a program, from defaults, a file, the environment and flags.
-- Parameters, in the record `Host`, are the packages strcase, pflag, json and yaml, the lookup of a
-- field by name (reflect), and the operating system.
pub mod Types
mod Visits
mod Files
mod FileFlags
mod Setters
pub mod Precedence
mod Tests
use go_ldlm.Errors.{other, Error, ◌>>=◌}
use go_ldlm.Common.{
  ◌||◌, [], ◌∷◌, ◌>>◌, ℕ, String, ◌==◌, ◌⊎◌, inl, inr, Bool, true, false, not, Option, none, some,
  List, if◌then◌else◌,
}
use Prim.Native.String.{◌++◌ as ◌<>◌}
use Types.{
  Kind, Value, Parsers, set_from_string, Tags, StructField, Fields, Memory, store, visit, file,
  unsupported, words, level, text, duration, uint32, int32, boolean, number, flag,
}

-- A flag as it is added to a flag set.
pub record FlagSpec : Type 0 where
  pub name : String
  pub short : String
  pub kind : Kind
  pub dflt : String
  pub desc : String

-- The names of the flag that is in configurer.configFile; the address of the field is kept beside.
pub record ConfigFile : Type 0 where
  pub flag : String
  pub sflag : String

pub record Host : Type 0 where
  pub getenv : String → String
  pub read_file : String → Error ⊎ String
  pub extension : String → String  -- fp.Ext(strings.ToLower(name))
  pub base : String → String  -- fp.Base
  pub unmarshal_json : String → Error ⊎ List (String × String)  -- in the order of range
  pub unmarshal_yaml : String → Error ⊎ List (String × String)
  pub to_snake : String → String
  pub to_screaming_snake : String → String
  pub to_camel : String → String
  pub field_by_name : Fields → String → Option StructField
  pub add_flag : List FlagSpec → FlagSpec → Error ⊎ List FlagSpec
  pub parse_flags : List FlagSpec → List String → ℕ ⊎ (String → Option String)  -- the flags that changed
  pub string_flag : String → String → String → List String → String

pub record Options : Type 0 where
  pub env_prefix : String
  pub args : List String

-- How Configure ends: a panic that leaves it, an exit of the program, or the settings.
pub data Configured : Type 0 where
  panicked : Error → Configured
  exits : ℕ → Configured
  configured : Memory → Configured

module _ (p : Parsers) (host : Host) (opts : Options) where
  pub is_file : Kind → Bool
  is_file file = true
  is_file k = false

  -- setConfigFile: the address of a field of type File.
  unfoldable pub set_config_file : Fields → Error ⊎ Option ℕ
  unfolding is_file
  set_config_file t =
      visit (λ fld s. inr (if is_file fld.kind then (some fld.addr, true) else (s, false))) t none

  -- A field takes the value of a text, if there is one.
  unfoldable pub assign : StructField → Option String → Memory → Error ⊎ (Memory × Bool)
  assign fld none m = inr (m, false)
  assign fld (some s) m = do v ← set_from_string p fld.kind s; inr (store fld.addr v m, false)

  pub default_tag : Error ⊎ Tags → Error ⊎ String
  default_tag (inl e) = inl e
  default_tag (inr tags) = elim (tags.dflt) [
    | none ↦ inl (other "tag does not exist")
    | some d ↦ inr d
  ]

  pub set_default : StructField → Memory → Error ⊎ (Memory × Bool)
  set_default fld m = do d ← default_tag fld.tags; assign fld (some d) m

  unfoldable pub set_defaults : Fields → Memory → Error ⊎ Memory
  unfolding set_default default_tag
  set_defaults t m = visit set_default t m

  -- The variable of a field, if it is set to a text that is not empty.
  unfoldable pub env_value : StructField → Option String
  env_value fld =
      let s = host.getenv (opts.env_prefix <> host.to_screaming_snake fld.name) in
      if s == "" then none else some s

  unfoldable pub set_from_env : Fields → Memory → Error ⊎ Memory
  set_from_env t m = visit (λ fld m. assign fld (env_value fld) m) t m

  required : Option String → Error ⊎ String
  required none = inl (other "tag does not exist")
  required (some s) = inr s

  short_of : Option String → String
  short_of none = ""
  short_of (some s) = s

  -- A type with no entry in flagSetMap panics.
  supported : Kind → FlagSpec → Error ⊎ FlagSpec
  supported unsupported f = inl (other "unsupported flagSetMap type")
  supported duration f = inr f
  supported text f = inr f
  supported file f = inr f
  supported uint32 f = inr f
  supported int32 f = inr f
  supported boolean f = inr f
  supported level f = inr f

  flag_of : StructField → Error ⊎ Tags → Error ⊎ FlagSpec
  flag_of fld (inl e) = inl e
  flag_of fld (inr tags) = do
    desc ← required tags.desc
    dflt ← required tags.dflt
    supported fld.kind (record {
      name = host.to_snake fld.name;
      short = short_of tags.short;
      kind = fld.kind;
      dflt = dflt;
      desc = desc;
    })

  -- The flag of a field of type File is that of the configuration file.
  file_flag : StructField → FlagSpec → ConfigFile → ConfigFile
  file_flag fld f c = if is_file fld.kind then record c { flag = f.name; sflag = f.short } else c

  load_flag :
      StructField → List FlagSpec × ConfigFile → Error ⊎ ((List FlagSpec × ConfigFile) × Bool)
  load_flag fld (fl, c) = do
    f ← flag_of fld fld.tags
    more ← host.add_flag fl f
    inr ((more, file_flag fld f c), false)

  unfoldable pub load_flags :
      Fields → List FlagSpec × ConfigFile → Error ⊎ (List FlagSpec × ConfigFile)
  unfolding load_flag flag_of required short_of supported file_flag is_file
  load_flags t s = visit load_flag t s

  -- The setters that loadFlags returns, in their order: one for each field.
  unfoldable pub run_setters : (String → Option String) → Fields → Memory → Error ⊎ Memory
  run_setters changed t m = visit (λ fld m'. assign fld (changed (host.to_snake fld.name)) m') t m

  -- The loop over the entries of the file.
  set_entries : Fields → List (String × String) → Memory → Error ⊎ Memory
  set_entries t [] m = inr m
  set_entries t ((k, v) ∷ rest) m = elim (host.field_by_name t (host.to_camel k)) [
    | none ↦ inl (other ("unknown configuration file field: " <> k))
    | some fld ↦ do r ← assign fld (some v) m; set_entries t rest r.0
  ]

  parse_file : String → String → Error ⊎ List (String × String)
  parse_file name contents =
      let ext = host.extension name in
      if ext == ".json"
      then host.unmarshal_json contents
      else if (ext == ".yml") || (ext == ".yaml")
      then host.unmarshal_yaml contents
      else inl (other ("unsupported config file type: " <> host.base name))

  value_text : Value → String
  value_text (words s) = s
  value_text (number i) = ""
  value_text (flag b) = ""

  -- The field of the configuration file takes its variable, if that is set.
  file_from_env : ConfigFile → ℕ → Memory → Memory
  file_from_env c a m =
      let s = host.getenv (opts.env_prefix <> host.to_screaming_snake c.flag) in
      if s == "" then m else store a (words s) m

  unfoldable pub load_config_file : Fields → ConfigFile → ℕ → Memory → Error ⊎ Memory
  unfolding set_entries parse_file value_text file_from_env
  load_config_file t c a m0 =
      let m = file_from_env c a m0 in
      let name = host.string_flag c.flag c.sflag (value_text (m a)) opts.args in
      if name == "" then inr m else do
        contents ← host.read_file name
        entries ← parse_file name contents
        set_entries t entries m

  pub load_file : Fields → ConfigFile → Option ℕ → Memory → Error ⊎ Memory
  load_file t c none m = inr m
  load_file t c (some a) m = load_config_file t c a m

  -- Everything but the flags: what the recover in Configure watches over, up to f.Parse.
  unfoldable pub before_flags : Fields → Option ℕ → Memory → Error ⊎ (List FlagSpec × Memory)
  unfolding load_file
  before_flags t a m = do
    loaded ← load_flags t ([], record { flag = ""; sflag = "" })
    from_file ← load_file t loaded.1 a m
    from_env ← set_from_env t from_file
    inr (loaded.0, from_env)

  -- A panic that is recovered ends the program with status 1.
  finished : Error ⊎ Memory → Configured
  finished (inl e) = exits 1
  finished (inr m) = configured m

  with_flags : Fields → Error ⊎ (List FlagSpec × Memory) → Configured
  with_flags t (inl e) = exits 1
  with_flags t (inr (fl, m)) = elim (host.parse_flags fl opts.args) [
    | inl status ↦ exits status
    | inr changed ↦ finished (run_setters changed t m)
  ]

  started : Fields → Option ℕ → Error ⊎ Memory → Configured
  started t a (inl e) = panicked e
  started t a (inr m) = with_flags t (before_flags t a m)

  found_file : Fields → Memory → Error ⊎ Option ℕ → Configured
  found_file t m (inl e) = panicked e
  found_file t m (inr a) = started t a (set_defaults t m)

  -- Configure, for a struct type and the zero values of its fields.
  unfoldable pub configure : Fields → Memory → Configured
  unfolding found_file started with_flags finished
  configure t zeros = found_file t zeros (set_config_file t)
