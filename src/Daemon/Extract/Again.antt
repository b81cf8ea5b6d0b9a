-- ===== src/Daemon/Extract/Again.antt =====
-- pkg/tuned/controller.go: a second profilesSync of the same profiles.
use cluster_node_tuning_oper.Base.{
  nat_eq, list_eq, ◌≡◌, refl, arith, Option, none, some, List, [], ◌∷◌, ◌==◌, inl, inr, Bool-cases,
  Bool, true, false, All, ◌∙◌, ◌≢◌, ap, sym,
}
use cluster_node_tuning_oper.Base.Dict.{Dict, lookup, NodupKeys}
use cluster_node_tuning_oper.Daemon.Builtin.{Bytes}
use cluster_node_tuning_oper.Daemon.Includes.{Entry, conf, content}
use cluster_node_tuning_oper.Daemon.Extract.{
  Files, profiles_sync, recommended_deps, TunedProfile, is_dir,
}
use cluster_node_tuning_oper.Daemon.Extract.Written.{
  Succeeds, defined, last_of, IsClear, Distinct, outdated,
}
use cluster_node_tuning_oper.Daemon.Extract.Synced.{
  synced_entry, profiles_sync-synced, profiles_sync-change, profiles_sync-NodupKeys,
}

-- Under each name the directory holds the data of the last profile of that name.
abbrev Holds : List (Bytes × Bytes) → Dict Bytes Entry → Type 0
Holds pairs dir = All (λ (n, t). lookup n dir ≡ some (conf t)) pairs

last_of-fresh :
    (name : Bytes) (pairs : List (Bytes × Bytes))
    → All (λ (n, _). (n == name) ≡ false) pairs
    → last_of name pairs ≡ none
unfolding last_of
last_of-fresh name [] h = refl
last_of-fresh name ((n, t) ∷ pairs) (h, hs) = ground (arith, last_of-fresh name pairs hs)

-- What is found of every profile in a directory that is in step.
Holds-synced :
    (pairs all : List (Bytes × Bytes)) (dir : Dict Bytes Entry)
    → ((n t : Bytes) → last_of n pairs ≡ some t → last_of n all ≡ some t)
    → Distinct pairs
    → ((n t : Bytes) → last_of n all ≡ some t → lookup n dir ≡ some (conf t))
    → Holds pairs dir
unfolding last_of
Holds-synced [] all dir sub d e = tt
Holds-synced ((n, t) ∷ pairs) all dir sub (d, ds) e = (
  e n t (sub n t (ground (arith, last_of-fresh n pairs d))),
  Holds-synced pairs all dir (λ m u h. sub m u (ground arith)) ds e,
)

IsClear-Holds :
    (pairs : List (Bytes × Bytes)) (dir : Dict Bytes Entry) → Holds pairs dir → IsClear pairs dir
IsClear-Holds [] dir h = tt
IsClear-Holds ((n, t) ∷ pairs) dir (h, hs) = (λ e. cc, IsClear-Holds pairs dir hs)

outdated-Holds :
    (deps : Dict Bytes Bool) (pairs : List (Bytes × Bytes)) (dir : Dict Bytes Entry)
    → Holds pairs dir
    → outdated deps pairs dir ≡ false
unfolding outdated content
outdated-Holds deps [] dir h = refl
outdated-Holds deps ((n, t) ∷ pairs) dir (h, hs) = ground (arith, outdated-Holds deps pairs dir hs)

not_dropped :
    (j : Bytes) (last : Option Bytes) (old : Option Entry) (e : Entry)
    → synced_entry j last old ≡ some e
    → is_dir e ≡ true
    → j ≢ []
    → last ≢ none
not_dropped j none none e q d ne l = cc
not_dropped j none (some old) e q d ne l = ground arith
not_dropped j (some t) old e q d ne l = cc

-- A run where each name has what a run leaves under it reports neither a change nor an error.
pub profiles_sync-settled :
    (files : Files) (depends : Dict Bytes Entry → Bytes → Dict Bytes Bool)
    (profiles : List TunedProfile) (recommended : Bytes) (dir dir' : Dict Bytes Entry)
    → Succeeds files
    → NodupKeys dir'
    → Distinct (defined profiles)
    → ((j : Bytes) → lookup j dir' ≡ synced_entry j (last_of j (defined profiles)) (lookup j dir))
    → ((profiles_sync files depends profiles recommended dir').change ≡ false)
      × ((profiles_sync files depends profiles recommended dir').failed ≡ false)
profiles_sync-settled files depends profiles recommended dir dir' h keys d entries =
    let pairs = defined profiles in
    let holds =
      Holds-synced pairs pairs dir' (λ n t e. e) d
        (λ n t e. entries n ∙ ap (λ (o : Option Bytes). synced_entry n o (lookup n dir)) e) in
    let clear = IsClear-Holds pairs dir' holds in
    let (reported, _) =
      profiles_sync-change files depends profiles recommended dir' h keys clear d in
    (
      elim (Bool-cases (profiles_sync files depends profiles recommended dir').change) [
        | inl changed ↦ elim (reported changed) [
          | inl new ↦
              let old =
                outdated-Holds (recommended_deps depends recommended dir') pairs dir' holds in
              cc
          | inr (j, (e, found, is, ne, l), dep) ↦
              absurd
                (not_dropped j (last_of j pairs) (lookup j dir) e (sym (entries j) ∙ found) is ne l)
        ]
        | inr same ↦ same
      ],
      (profiles_sync-synced files depends profiles recommended dir' h keys clear).0,
    )

-- A second run with the same profiles reports no change and no error, whatever is recommended then and whatever that depends on:
-- the daemon is not reloaded for profiles that are in place. The directory had one entry
-- for a name, no profile has the name of something that was no directory, no two profiles have one name, and no operation fails.
pub profiles_sync-again :
    (files : Files) (depends : Dict Bytes Entry → Bytes → Dict Bytes Bool)
    (profiles : List TunedProfile) (recommended recommended' : Bytes) (dir : Dict Bytes Entry)
    → Succeeds files
    → NodupKeys dir
    → IsClear (defined profiles) dir
    → Distinct (defined profiles)
    → let dir' = (profiles_sync files depends profiles recommended dir).dir in
      ((profiles_sync files depends profiles recommended' dir').change ≡ false)
      × ((profiles_sync files depends profiles recommended' dir').failed ≡ false)
profiles_sync-again files depends profiles recommended recommended' dir h u c d =
    let dir' = (profiles_sync files depends profiles recommended dir).dir in
    profiles_sync-settled files depends profiles recommended' dir dir' h
      (profiles_sync-NodupKeys files depends profiles recommended dir h u c) d
      (profiles_sync-synced files depends profiles recommended dir h u c).1
