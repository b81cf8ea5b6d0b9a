-- ===== src/Tests/Profiles.antt =====
-- pkg/tuned/tuned_parser.go and the profiles of pkg/tuned/controller.go, at concrete inputs.
use cluster_node_tuning_oper.Base.{
  nat_eq, list_eq, string_eq, ◌≡◌, refl, arith, Bool, true, false, List, [], ◌∷◌, ◌++◌, Option,
  none, some, utf8, ◌↔◌, ◌⊎◌, ◌==◌, suc, length, Bool-cases, inl, inr, subst, sym,
}
use cluster_node_tuning_oper.Base.Dict.{Dict, lookup, NodupKeys}
use cluster_node_tuning_oper.Operator.Types.{TunedProfile}
use cluster_node_tuning_oper.Daemon.Builtin.{
  Bytes, dollars, expand, expand_tuned_builtin, exec_tuned_builtin,
}
use cluster_node_tuning_oper.Daemon.Builtin.Fuel.{expand-fuel}
use cluster_node_tuning_oper.Daemon.Builtin.Call.{call, call_before, expand_tuned_builtin-call}
use cluster_node_tuning_oper.Daemon.Includes.{
  Disk, Entry, conf, Ini, found, is_set, profile_includes, profile_depends, profile_includes_raw,
  content, get_ini_file_section_slice, split,
}
use cluster_node_tuning_oper.Daemon.Includes.Reach.{DependsOn}
use cluster_node_tuning_oper.Daemon.Includes.Total.{NonEmpty, all_included, profile_depends-on_disk}
use cluster_node_tuning_oper.Daemon.Extract.{Files, profiles_sync, recommended_deps}
use cluster_node_tuning_oper.Daemon.Extract.Written.{
  Succeeds, defined, last_of, IsClear, Distinct, outdated,
}
use cluster_node_tuning_oper.Daemon.Extract.Synced.{
  synced_entry, Dropped, profiles_sync-synced, profiles_sync-change,
}

-- A machine on which each command prints a line.
abbrev run : List Bytes → Option Bytes
run c = some (b'k' ∷ [])

abbrev word : Bytes
word = b'v' ∷ b'm' ∷ []

abbrev other_word : Bytes
other_word = b'h' ∷ b'w' ∷ []

abbrev virt : Bytes
virt = b'v' ∷ b'i' ∷ b'r' ∷ b't' ∷ b'_' ∷ b'c' ∷ b'h' ∷ b'e' ∷ b'c' ∷ b'k' ∷ []

virt-run :
    expand_tuned_builtin run (word ++ (call virt (word ∷ other_word ∷ []) ++ [])) ≡ word ++ word
unfolding expand_tuned_builtin call_before utf8 string_eq nat_eq list_eq
virt-run = refl

expand-fuel_example :
    expand run 9 (call virt (word ∷ [])) ≡ expand_tuned_builtin run (call virt (word ∷ []))
unfolding dollars call_before nat_eq
expand-fuel_example = expand-fuel run 9 (call virt (word ∷ [])) (omega arith)

expand_tuned_builtin-call_example :
    expand_tuned_builtin run (word ++ (call virt (word ∷ other_word ∷ []) ++ other_word))
    ≡ word
      ++ (exec_tuned_builtin run virt (word ∷ other_word ∷ []) (call virt (word ∷ other_word ∷ []))
          ++ other_word)
unfolding nat_eq
expand_tuned_builtin-call_example =
    expand_tuned_builtin-call run word virt (word ∷ other_word ∷ []) other_word (ground arith) refl
      (ground arith) (ground arith) (ground arith)

-- The text of a file is the list of included profiles.
abbrev ini : Ini
ini text sect key = elim text [ [] ↦ none | c ∷ rest ↦ some (c ∷ rest) ]

-- A custom profile `vm` that includes `hw`.
abbrev disk : Disk
disk = record { custom = (word, conf other_word) ∷ []; system = [] }

content-cases : (u : Bytes) → (content u disk.custom ≡ other_word) ⊎ (content u disk.custom ≡ [])
unfolding content lookup
content-cases u = elim (Bool-cases (u == word)) [
  | inl same ↦ inl (ground arith)
  | inr other ↦ inr (ground arith)
]

raw-custom : (u : Bytes) → NonEmpty (profile_includes_raw ini u disk.custom)
unfolding profile_includes_raw get_ini_file_section_slice split nat_eq
raw-custom u =
    let raw = λ (t : Bytes). NonEmpty (get_ini_file_section_slice ini t "main" "include" b',') in
    elim (content-cases u) [
      | inl q ↦ subst raw (sym q) (λ e. cc, tt)
      | inr q ↦ subst raw (sym q) tt
    ]

raw-system : (u : Bytes) → NonEmpty (profile_includes_raw ini u disk.system)
unfolding profile_includes_raw content get_ini_file_section_slice lookup
raw-system u = tt

profile_depends-on_disk_example :
    (t : Dict Bytes Bool) × (profile_depends
        (profile_includes ini run disk)
        (suc (length (all_included ini run disk)))
        word
      ≡ found t)
    × ((v : Bytes) → (is_set v t ≡ true) ↔ DependsOn (profile_includes ini run disk) word v)
profile_depends-on_disk_example =
    profile_depends-on_disk ini run disk word (λ s k. refl) raw-custom raw-system

abbrev files : Files
files = record {
  make_dir = λ _. true;
  create = λ _. true;
  write = λ _ text. (text, true);
  read_dir = true;
  remove_all = λ _. true;
}

pub files-Succeeds : Succeeds files
files-Succeeds = record {
  makes = λ _. refl;
  creates = λ _. refl;
  writes = λ _ _. refl;
  reads = refl;
  removes = λ _. refl;
}

abbrev no_deps : Dict Bytes Entry → Bytes → Dict Bytes Bool
no_deps dir name = []

abbrev listed : List TunedProfile
listed = record { name = some "hw"; contents = some "x" } ∷ []

-- The directory has another profile.
abbrev dir : Dict Bytes Entry
dir = (word, conf word) ∷ []

dir-NodupKeys : NodupKeys dir
unfolding lookup
dir-NodupKeys = (refl, tt)

dir-IsClear : IsClear (defined listed) dir
unfolding lookup nat_eq list_eq utf8
dir-IsClear = (λ e. cc, tt)

dir-Distinct : Distinct (defined listed)
dir-Distinct = (tt, tt)

profiles_sync-synced_example :
    ((profiles_sync files no_deps listed word dir).failed ≡ false)
    × ((j : Bytes)
        → lookup j (profiles_sync files no_deps listed word dir).dir
          ≡ synced_entry j (last_of j (defined listed)) (lookup j dir))
profiles_sync-synced_example =
    profiles_sync-synced files no_deps listed word dir files-Succeeds dir-NodupKeys dir-IsClear

profiles_sync-change_example : ((profiles_sync files no_deps listed word dir).change ≡ true) ↔ (
    (outdated (recommended_deps no_deps word dir) (defined listed) dir ≡ true)
    ⊎ ((j : Bytes) × Dropped (defined listed) dir j
        × (is_set j (recommended_deps no_deps word dir) ≡ true)))
profiles_sync-change_example =
    profiles_sync-change files no_deps listed word dir files-Succeeds dir-NodupKeys dir-IsClear
      dir-Distinct
