-- ===== src/Daemon/Includes/Total.antt =====
-- pkg/tuned/tuned_parser.go: profileDepends on the profiles of a disk, which are finitely many.
use cluster_node_tuning_oper.Base.{
  if◌then◌else◌, nat_eq, list_eq, ◌≡◌, ◌≢◌, suc, refl, Option, some, none, List, [], ◌∷◌, ◌↔◌, map,
  ◌++◌, inl, inr, Bool-cases, String, subst, Bool, Option-cases, sym, ◌==◌, arith, ◌∙◌, ap, length,
  true, false, All, ◌||◌, ◌&&◌,
}
use cluster_node_tuning_oper.Base.Dict.{Dict, lookup}
use cluster_node_tuning_oper.Daemon.Builtin.{Bytes, expand_tuned_builtin}
use cluster_node_tuning_oper.Daemon.Includes.{
  Disk, Entry, Ini, found, is_set, profile_includes, profile_exists, profile_includes_raw, content,
  profile_depends, get_ini_file_section_slice, includes_loop, real_profile_name, system_loop,
}
use cluster_node_tuning_oper.Daemon.Includes.Finite.{profile_depends-total}
use cluster_node_tuning_oper.Daemon.Includes.Reach.{DependsOn}
use mathlib.Core.List.Memᴰ
use mathlib.Core.List.{Memᴰ}
use mathlib.Core.Option.{some-injective}

abbrev keys : Dict Bytes Entry → List Bytes
keys = map (λ (k, _). k)

mem-keys : (k : Bytes) (v : Entry) (d : Dict Bytes Entry) → lookup k d ≡ some v → Memᴰ k (keys d)
unfolding lookup
mem-keys k v [] h = cc
mem-keys k v ((j, w) ∷ d) h = elim (Bool-cases (k == j)) [
  | inl same ↦ Memᴰ.head (ground arith)
  | inr other ↦ Memᴰ.tail (mem-keys k v d (ground arith))
]

profile_exists-absent :
    (u : Bytes) (d : Dict Bytes Entry) → lookup u d ≡ none → profile_exists u d ≡ false
unfolding profile_exists
profile_exists-absent u d h = ground arith

content-absent : (u : Bytes) (d : Dict Bytes Entry) → lookup u d ≡ none → content u d ≡ []
unfolding content
content-absent u d h = ground arith

raw-absent :
    (ini : Ini) (u : Bytes) (d : Dict Bytes Entry)
    → ini [] "main" "include" ≡ none
    → lookup u d ≡ none
    → profile_includes_raw ini u d ≡ []
unfolding profile_includes_raw get_ini_file_section_slice
raw-absent ini u d h a = ground (arith, content-absent u d a)

module _ (ini : Ini) (run : List Bytes → Option Bytes) (disk : Disk) where
  abbrev names_of : Option (List Bytes) → List Bytes
  names_of none = []
  names_of (some vs) = vs

  abbrev included_names : List Bytes → List Bytes
  included_names [] = []
  included_names (k ∷ ks) = names_of (profile_includes ini run disk k) ++ included_names ks

  -- All names that the files of the disk include.
  abbrev pub all_included : List Bytes
  all_included = included_names (keys disk.custom ++ keys disk.system)

  mem-included_names :
      (ks : List Bytes) (u v : Bytes) (vs : List Bytes)
      → Memᴰ u ks
      → profile_includes ini run disk u ≡ some vs
      → Memᴰ v vs
      → Memᴰ v (included_names ks)
  mem-included_names [] u v vs m e q = elim m [ ]
  mem-included_names (k ∷ ks) u v vs (Memᴰ.head p) e q = Memᴰ.append_left (included_names ks) (
      subst (λ (o : Option (List Bytes)). Memᴰ v (names_of o))
        (sym e ∙ ap (profile_includes ini run disk) p) q)
  mem-included_names (k ∷ ks) u v vs (Memᴰ.tail m) e q =
      Memᴰ.append_right (names_of (profile_includes ini run disk k))
        (mem-included_names ks u v vs m e q)

  includes-absent :
      (u : Bytes)
      → ((sect key : String) → ini [] sect key ≡ none)
      → lookup u disk.custom ≡ none
      → lookup u disk.system ≡ none
      → profile_includes ini run disk u ≡ some []
  unfolding profile_includes includes_loop
  includes-absent u h c s = ground (
    arith,
    profile_exists-absent u disk.custom c,
    raw-absent ini u disk.system (h "main" "include") s,
  )

  closed :
      ((sect key : String) → ini [] sect key ≡ none)
      → (u : Bytes) (vs : List Bytes) → profile_includes ini run disk u ≡ some vs
      → (v : Bytes) → Memᴰ v vs
      → Memᴰ v all_included
  closed h u vs e v q = elim (Option-cases (lookup u disk.custom)) [
    | inr (w, c) ↦
        mem-included_names (keys disk.custom ++ keys disk.system) u v vs
          (Memᴰ.append_left (keys disk.system) (mem-keys u w disk.custom c)) e q
    | inl c ↦ elim (Option-cases (lookup u disk.system)) [
      | inr (w, s) ↦
          mem-included_names (keys disk.custom ++ keys disk.system) u v vs
            (Memᴰ.append_right (keys disk.custom) (mem-keys u w disk.system s)) e q
      | inl s ↦
          absurd (
            Memᴰ.not-nil
              (subst (Memᴰ v) (some-injective vs [] (sym e ∙ includes-absent u h c s)) q))
    ]
  ]

-- No name is empty.
abbrev pub NonEmpty : List Bytes → Type 0
NonEmpty names = All (λ n. n ≢ []) names

module _ (ini : Ini) (run : List Bytes → Option Bytes) where
  includes_loop-total :
      (name : Bytes) (custom : Bool) (profiles expanded : List Bytes) (system : Bool)
      → NonEmpty profiles
      → includes_loop ini run name custom profiles expanded system ≢ none
  unfolding includes_loop real_profile_name
  includes_loop-total name custom [] expanded system h e = cc
  includes_loop-total name custom ([] ∷ ps) expanded system (h, hs) e = h refl
  includes_loop-total name custom ((c ∷ p) ∷ ps) expanded system (h, hs) e =
      let r = expand_tuned_builtin run (if c == b'-' then p else c ∷ p) in
      includes_loop-total name custom ps (expanded ++ r ∷ []) (system || (name == r && custom)) hs e

  system_loop-total :
      (profiles expanded : List Bytes)
      → NonEmpty profiles
      → system_loop ini run profiles expanded ≢ none
  unfolding system_loop real_profile_name
  system_loop-total [] expanded h e = cc
  system_loop-total ([] ∷ ps) expanded (h, hs) e = h refl
  system_loop-total ((c ∷ p) ∷ ps) expanded (h, hs) e =
      system_loop-total ps
        (expanded ++ expand_tuned_builtin run (if c == b'-' then p else c ∷ p) ∷ []) hs e

  profile_includes-total :
      (disk : Disk) (u : Bytes)
      → NonEmpty (profile_includes_raw ini u disk.custom)
      → NonEmpty (profile_includes_raw ini u disk.system)
      → profile_includes ini run disk u ≢ none
  unfolding profile_includes
  profile_includes-total disk u hc hs e =
      let custom = profile_exists u disk.custom in
      let raw = profile_includes_raw ini u (if custom then disk.custom else disk.system) in
      let h : NonEmpty raw = elim (Bool-cases custom) [ inl q ↦ rw q hc | inr q ↦ rw q hs ] in
      elim (Option-cases (includes_loop ini run u custom raw [] false)) [
        | inl bad ↦ includes_loop-total u custom raw [] false h bad
        | inr ((expanded, system), q) ↦ elim (Bool-cases system) [
          | inl both ↦
              system_loop-total (profile_includes_raw ini u disk.system) expanded hs (ground arith)
          | inr one ↦ ground arith
        ]
      ]

-- The search for the profiles that a profile depends on returns, whatever the files include, and its
-- map has set exactly the names that one or more includes lead to. No file includes an empty name,
-- and no data has no keys. The fuel is one more than the number of names that files include.
pub profile_depends-on_disk :
    (ini : Ini) (run : List Bytes → Option Bytes) (disk : Disk) (name : Bytes)
    → ((sect key : String) → ini [] sect key ≡ none)
    → ((u : Bytes) → NonEmpty (profile_includes_raw ini u disk.custom))
    → ((u : Bytes) → NonEmpty (profile_includes_raw ini u disk.system))
    → (t : Dict Bytes Bool) × (profile_depends
          (profile_includes ini run disk)
          (suc (length (all_included ini run disk)))
          name
        ≡ found t)
      × ((v : Bytes) → (is_set v t ≡ true) ↔ DependsOn (profile_includes ini run disk) name v)
profile_depends-on_disk ini run disk name h hc hs =
    profile_depends-total (profile_includes ini run disk) (all_included ini run disk)
      (λ u. profile_includes-total ini run disk u (hc u) (hs u)) (closed ini run disk h) name
