-- ===== src/Config/Precedence.antt =====
-- Which source of config/config.go a setting comes from.
use go_ldlm.Config.Types.{Fields, Memory, StructField, set_from_string, Parsers}
use go_ldlm.Config.Setters.{Takes}
use go_ldlm.Config.FileFlags.{Flags}
use go_ldlm.Config.Files.{IsFileField}
use go_ldlm.Config.{
  load_flags, set_config_file, ConfigFile, load_file, env_value, FlagSpec, set_defaults,
  before_flags, run_setters, default_tag, Options, Host,
}
use go_ldlm.Common.{ℕ, String, ◌≡◌, inr, Option, List, []}

module _ (p : Parsers) (host : Host) (opts : Options) where
  -- The steps of a Configure that ends with settings.
  record Layers (t : Fields) (zeros m : Memory) : Type 0 where
    a : Option ℕ
    defaults : Memory
    fl : List FlagSpec
    from_env : Memory
    changed : String → Option String
    found : set_config_file p host opts t ≡ inr a
    set_default_layer : set_defaults p host opts t zeros ≡ inr defaults
    set_env_layer : before_flags p host opts t a defaults ≡ inr (fl, from_env)
    parsed : host.parse_flags fl opts.args ≡ inr changed
    set_flag_layer : run_setters p host opts changed t from_env ≡ inr m

  -- The layers that a setting comes from, each over the one before: default, file, environment, flag.
  abbrev pub ComesFrom : Fields → Memory → Memory → StructField → Type 0
  ComesFrom t zeros m fld =
      (a : Option ℕ) × (c : ConfigFile) × (fl : List FlagSpec) × (changed : String → Option String)
      × (default : Memory) × (from_file : Memory) × (from_env : Memory) × (d : String)
      × (set_config_file p host opts t ≡ inr a)
      × IsFileField t a
      × (set_defaults p host opts t zeros ≡ inr default)
      × (load_flags p host opts t ([], record { flag = ""; sflag = "" }) ≡ inr (fl, c))
      × Flags p host opts t (record { flag = ""; sflag = "" }) c
      × (default_tag p host opts fld.tags ≡ inr d)
      × (set_from_string p fld.kind d ≡ inr (default fld.addr))
      × (load_file p host opts t c a default ≡ inr from_file)
      × Takes p host opts fld.kind (env_value p host opts fld) (from_file fld.addr)
          (from_env fld.addr)
      × (host.parse_flags fl opts.args ≡ inr changed)
      × Takes p host opts fld.kind (changed (host.to_snake fld.name)) (from_env fld.addr)
          (m fld.addr)
