-- ===== src/FeatureFlags.antt =====
-- packages/featureflags/featureflags/core.py: flags that are registered in code and set in a YAML file,
-- whose values are cached by the file's modification time; and registry.py there. A YAML value is none
-- where it is null. `IIC_FEATUREFLAGS_PATH` is fixed, and `list_flags`, a view for the admin, is left out.
pub mod Cached
mod Tests
use investment_intelligence.Prelude.{
  ℕ, Bool, true, false, Option, none, some, List, [], ◌∷◌, String, if◌then◌else◌,
}
use investment_intelligence.Prelude.Keys.{◌=?◌, ℕ-keys, String-keys}
use investment_intelligence.Prelude.Dict.{Dict, lookup, insert}
use investment_intelligence.Prelude.Outcome.{Result, ok, err}

pub record FlagSpec (V : Type 0) : Type 0 where
  pub name : String
  pub description : String
  pub added_in : String
  pub default : Option V
  pub owner : String

-- The mtime is none before the first read, where the code has -1.0.
pub record Cache (V : Type 0) : Type 0 where
  pub mtime : Option ℕ
  pub values : Dict String (Option V)

-- What `yaml.safe_load(p.read_text()) or {}` makes of the file: it raises a YAMLError or another
-- exception, or it is a value of another kind or a mapping.
pub data Text (K V : Type 0) : Type 0 where
  bad_yaml unreadable not_a_mapping : Text K V
  mapping : List (K × Option V) → Text K V

-- The file at one look: it is not there, `stat` raises, or its mtime and text.
pub data File (K V : Type 0) : Type 0 where
  absent stat_fails : File K V
  at : ℕ → Text K V → File K V

pub data ReadError : Type 0 where
  read_failed : ReadError

-- `_REGISTRY`, `_TEST_OVERRIDES` and `_CACHE`
pub record State (V : Type 0) : Type 0 where
  pub registry : Dict String (FlagSpec V)
  pub overrides : Dict String (Option V)
  pub cache : Cache V

-- `name in d`
abbrev pub is_key : {V : Type 0} → String → Dict String V → Bool
is_key name d = elim (lookup name d) [ none ↦ false | some _ ↦ true ]

abbrev pub is_cached : Option ℕ → ℕ → Bool
is_cached none m = false
is_cached (some n) m = n =? m

module _ {K V : Type 0} (str : K → String) where
  -- `{str(k): v for k, v in raw.items()}`, after the items that `d` has.
  abbrev pub by_name : List (K × Option V) → Dict String (Option V) → Dict String (Option V)
  by_name [] d = d
  by_name ((k, v) ∷ items) d = by_name items (insert (str k) v d)

  abbrev pub load : ℕ → Text K V → Cache V → Result ReadError (Dict String (Option V)) × Cache V
  load m bad_yaml c = (ok c.values, c)
  load m unreadable c = (err read_failed, c)
  load m not_a_mapping c = (ok [], record { mtime = some m; values = [] })
  load m (mapping items) c =
      let values = by_name items [] in (ok values, record { mtime = some m; values = values })

  pub read_yaml : File K V → Cache V → Result ReadError (Dict String (Option V)) × Cache V
  read_yaml absent c = (ok [], c)
  read_yaml stat_fails c = (ok c.values, c)
  read_yaml (at m t) c = if is_cached c.mtime m then (ok c.values, c) else load m t c

  -- The value of the file, or else the default.
  abbrev pub default_of : Option (FlagSpec V) → Option V
  default_of none = none
  default_of (some spec) = spec.default

  abbrev pub value_in :
      String
      → Dict String (FlagSpec V)
      → Result ReadError (Dict String (Option V))
      → Result ReadError (Option V)
  value_in name registry (err e) = err e
  value_in name registry (ok values) = elim (lookup name values) [
    | some v ↦ ok v
    | none ↦ ok (default_of (lookup name registry))
  ]

  pub resolve : String → File K V → State V → Result ReadError (Option V) × State V
  resolve name f s = elim (lookup name s.overrides) [
    | some v ↦ (ok v, s)
    | none ↦
        let (values, cache) = read_yaml f s.cache in
        (value_in name s.registry values, record s { cache = cache })
  ]

  module _ (truthy : V → Bool) where
    -- `bool(x)`
    abbrev pub as_bool : Result ReadError (Option V) → Result ReadError Bool
    as_bool (err e) = err e
    as_bool (ok none) = ok false
    as_bool (ok (some v)) = ok (truthy v)

    pub flag : String → File K V → State V → Result ReadError Bool × State V
    flag name f s =
        let (v, s') = resolve name f s in
        if is_key name s.registry then (as_bool v, s') else (ok false, s)

  abbrev or_default : V → Result ReadError (Option V) → Result ReadError V
  or_default default (err e) = err e
  or_default default (ok none) = ok default
  or_default default (ok (some v)) = ok v

  pub flag_value : String → V → File K V → State V → Result ReadError V × State V
  flag_value name default f s = let (v, s') = resolve name f s in (or_default default v, s')

-- A later call overwrites the entry.
abbrev pub register : {V : Type 0} → FlagSpec V → State V → State V
register spec s = record s { registry = insert spec.name spec s.registry }

abbrev pub set_for_test : {V : Type 0} → String → Option V → State V → State V
set_for_test name v s = record s { overrides = insert name v s.overrides }

abbrev pub reset_for_test : {V : Type 0} → State V → State V
reset_for_test s = record s { overrides = [] }
