-- ===== src/Daemon/Includes.antt =====
-- pkg/tuned/tuned_parser.go: the profiles that a TuneD profile includes, and those that it depends on.
-- `ini` stands for the package ini: the value of a key in a section of the data, none where there is
-- none or the data is invalid. Where Go slices an empty name, the model returns none.
pub mod Reach
pub mod Finite
pub mod Total
use cluster_node_tuning_oper.Base.{
  nat_eq, list_eq, ◌&&◌, ◌||◌, suc, zero, Eq, List, Option, String, ℕ, Bool, [], if◌then◌else◌,
  none, some, ◌∷◌, false, ◌++◌, ◌==◌, true,
}
use cluster_node_tuning_oper.Base.Dict.{Dict, lookup, insert}
use cluster_node_tuning_oper.Daemon.Builtin.{Bytes, expand_tuned_builtin}

-- An entry of a directory of profiles: something that is no directory, a directory with no tuned.conf,
-- with one that cannot be read, or with one of some content.
pub data Entry : Type 0 where
  no_dir empty_dir unreadable : Entry
  conf : Bytes → Entry

-- tunedProfilesDirCustom and tunedProfilesDirSystem, by the names of the profiles.
pub record Disk : Type 0 where
  pub custom : Dict Bytes Entry
  pub system : Dict Bytes Entry

-- profileExists; below what is no directory, Stat fails with another error than ErrNotExist.
unfoldable pub profile_exists : Bytes → Dict Bytes Entry → Bool
profile_exists name dir = elim (lookup name dir) [
  | none ↦ false
  | some empty_dir ↦ false
  | some no_dir ↦ true
  | some unreadable ↦ true
  | some (conf _) ↦ true
]

-- What is read of a tuned.conf, nothing where that fails.
unfoldable pub content : Bytes → Dict Bytes Entry → Bytes
content name dir = elim (lookup name dir) [
  | none ↦ []
  | some empty_dir ↦ []
  | some no_dir ↦ []
  | some unreadable ↦ []
  | some (conf text) ↦ text
]

-- strings.Split by a separator of one byte.
unfoldable pub split : ℕ → Bytes → List Bytes
split sep [] = [] ∷ []
split sep (c ∷ s) =
    let rest = split sep s in
    if c == sep then [] ∷ rest else elim rest [ [] ↦ (c ∷ []) ∷ [] | w ∷ ws ↦ (c ∷ w) ∷ ws ]

abbrev pub Ini : Type 0
Ini = Bytes → String → String → Option Bytes

unfoldable pub get_ini_file_section_slice : Ini → Bytes → String → String → ℕ → List Bytes
get_ini_file_section_slice ini text sect key sep = elim (ini text sect key) [
  | none ↦ []
  | some value ↦ split sep value
]

unfoldable pub profile_includes_raw : Ini → Bytes → Dict Bytes Entry → List Bytes
profile_includes_raw ini name dir =
    get_ini_file_section_slice ini (content name dir) "main" "include" b','

module _ (ini : Ini) (run : List Bytes → Option Bytes) where
  unfoldable pub real_profile_name : Bytes → Option Bytes
  unfolding expand_tuned_builtin
  real_profile_name [] = none
  real_profile_name (c ∷ profile) =
      some (expand_tuned_builtin run (if c == b'-' then profile else c ∷ profile))

  -- The loop over the profiles of the first file, with `expanded` and `system`.
  unfoldable pub includes_loop :
      Bytes → Bool → List Bytes → List Bytes → Bool → Option (List Bytes × Bool)
  unfolding real_profile_name
  includes_loop name custom [] expanded system = some (expanded, system)
  includes_loop name custom (profile ∷ profiles) expanded system =
      elim (real_profile_name profile) [
        | none ↦ none
        | some p ↦
            includes_loop name custom profiles (expanded ++ p ∷ [])
              (system || (name == p && custom))
      ]

  -- The loop over the profiles of the system's file.
  unfoldable pub system_loop : List Bytes → List Bytes → Option (List Bytes)
  unfolding real_profile_name
  system_loop [] expanded = some expanded
  system_loop (profile ∷ profiles) expanded = elim (real_profile_name profile) [
    | none ↦ none
    | some p ↦ system_loop profiles (expanded ++ p ∷ [])
  ]

  unfoldable pub profile_includes : Disk → Bytes → Option (List Bytes)
  profile_includes disk name =
      let custom = profile_exists name disk.custom in
      let profiles = profile_includes_raw ini name (if custom then disk.custom else disk.system) in
      elim (includes_loop name custom profiles [] false) [
        | none ↦ none
        | some (expanded, system) ↦
            (if system
              then system_loop (profile_includes_raw ini name disk.system) expanded
              else some expanded)
      ]

-- What becomes of profileDependsLoop: a map, a panic, or no result with the fuel given.
pub data Depends {ℓ} (A : Type ℓ) : Type ℓ where
  found : Dict A Bool → Depends A
  panics : Depends A
  out_of_fuel : Depends A

module _ {ℓ} {A : Type ℓ} ⦃e : Eq A⦄ where
  -- `m[k]` of a map of Booleans.
  unfoldable pub is_set : A → Dict A Bool → Bool
  is_set k m = elim (lookup k m) [ none ↦ false | some b ↦ b ]

  unfoldable pub and_then : Depends A → (Dict A Bool → Depends A) → Depends A
  and_then (found seen) f = f seen
  and_then panics f = panics
  and_then out_of_fuel f = out_of_fuel

  -- The loop over the included profiles, with the call for each.
  unfoldable pub depends_scan : (A → Dict A Bool → Depends A) → List A → Dict A Bool → Depends A
  depends_scan call [] seen = found seen
  depends_scan call (profile ∷ profiles) seen = elim (is_set profile seen) [
    | true ↦ depends_scan call profiles seen
    | false ↦ and_then (call profile (insert profile true seen)) (depends_scan call profiles)
  ]

  -- The fuel bounds the depth of the recursion.
  unfoldable pub profile_depends_loop : (A → Option (List A)) → ℕ → A → Dict A Bool → Depends A
  profile_depends_loop includes zero name seen = out_of_fuel
  profile_depends_loop includes (suc fuel) name seen = elim (includes name) [
    | none ↦ panics
    | some profiles ↦ depends_scan (profile_depends_loop includes fuel) profiles seen
  ]

  unfoldable pub profile_depends : (A → Option (List A)) → ℕ → A → Depends A
  profile_depends includes fuel name = profile_depends_loop includes fuel name []
