-- ===== src/BinUtil/Config.antt =====
-- crates/bin-util/src/lib.rs and config_defaults.rs: loading a configuration. The `config` crate is
-- the parameter `ConfigCrate`: `build` merges the optional file of a path and the environment's
-- variables, and `try_deserialize` reads a value of a type from what was merged.
use axelar_relayer_core.Base.{
  ℕ, ◌*◌, Bool, true, false, ◌&&◌, List, [], ◌∷◌, Text, Result, ok, err, Eff, if◌then◌else◌, ◌==◌,
  ◌||◌, leb,
}

-- An `eyre::Report`, by the step that failed.
pub data ConfigError (X : Type 0) : Type 0 where
  not_loaded not_parsed : X → ConfigError X
  not_valid : Text → ConfigError X

pub record ConfigCrate (W X Raw : Type 0) : Type 0 where
  pub build : Text → Eff W X Raw

-- `T: DeserializeOwned + ValidateConfig`.
pub record Loadable (X Raw C : Type 0) : Type 0 where
  pub try_deserialize : Raw → Result X C
  pub validate : C → Result Text (Unit {0})

abbrev checked : {X C : Type 0} → Result Text (Unit {0}) → C → Result (ConfigError X) C
checked (ok u) c = ok c
checked (err e) c = err (not_valid e)

abbrev parsed : {X Raw C : Type 0} → Loadable X Raw C → Raw → Result (ConfigError X) C
parsed t raw = elim (t.try_deserialize raw) [
  | err e ↦ err (not_parsed e)
  | ok c ↦ checked (t.validate c) c
]

-- `try_deserialize`.
unfoldable pub try_deserialize :
    {W X Raw C : Type 0} → ConfigCrate W X Raw → Loadable X Raw C → Text → Eff W (ConfigError X) C
try_deserialize config t config_path w =
    let (r, w') = config.build config_path w in
    elim r [ err e ↦ (err (not_loaded e), w') | ok raw ↦ (parsed t raw, w') ]

-- `eyre::ensure!`.
abbrev pub ensure : Bool → Text → Result Text (Unit {0})
ensure true message = ok tt
ensure false message = err message

-- Checks one after the other, with `?`.
infixr 4 ◌and_also◌
abbrev pub ◌and_also◌ : Result Text (Unit {0}) → Result Text (Unit {0}) → Result Text (Unit {0})
ok u and_also r = r
err e and_also r = err e

-- `deserialize_duration_from_secs`, in milliseconds, from the result of `u64::deserialize`.
unfoldable pub deserialize_duration_from_secs : {X : Type 0} → Result X ℕ → Result X ℕ
deserialize_duration_from_secs (err e) = err e
deserialize_duration_from_secs (ok seconds) = ok (seconds * 1000)

-- `str::is_empty`, and `Vec::is_empty`.
abbrev pub is_empty : {A : Type 0} → List A → Bool
is_empty [] = true
is_empty (x ∷ xs) = false

-- `char::is_whitespace`: the property White_Space of Unicode.
abbrev pub is_whitespace : ℕ → Bool
is_whitespace c =
    (leb 9 c && leb c 13)
    || (c == 32)
    || (c == 133)
    || (c == 160)
    || (c == 5760)
    || (leb 8192 c && leb c 8202)
    || (c == 8232)
    || (c == 8233)
    || (c == 8239)
    || (c == 8287)
    || (c == 12288)

unfoldable pub trim_start : Text → Text
trim_start [] = []
trim_start (c ∷ cs) = let rest = trim_start cs in if is_whitespace c then rest else c ∷ cs

unfoldable pub trim_end : Text → Text
trim_end [] = []
trim_end (c ∷ cs) =
    let rest = trim_end cs in if is_empty rest && is_whitespace c then [] else c ∷ rest

-- `str::trim`.
unfoldable pub trim : Text → Text
trim t = trim_end (trim_start t)

-- config_defaults.rs.
abbrev pub default_max_bundle_size : ℕ
default_max_bundle_size = 100

abbrev pub default_concurrent_queue_items : ℕ
default_concurrent_queue_items = 50

abbrev pub default_worker_count : ℕ
default_worker_count = 50

abbrev pub default_max_errors : ℕ
default_max_errors = 20

abbrev pub default_limit_per_request : ℕ
default_limit_per_request = 100
