-- ===== src/Daemon/Extract/Synced.antt =====
-- pkg/tuned/controller.go: the directory of custom profiles after profilesSync, and its report of a
-- change.
use cluster_node_tuning_oper.Base.{
  nat_eq, list_eq, ◌≡◌, refl, arith, Option, none, some, List, [], ◌∷◌, if◌then◌else◌, ◌==◌, inl,
  inr, ◌&&◌, ◌||◌, not, Bool-cases, Bool, true, false, ◌∙◌, ap₂, or_true, ◌↔◌, ◌≢◌, ap, ◌⊎◌, sym,
}
use cluster_node_tuning_oper.Base.Dict.{Dict, lookup, lookup-erase, NodupKeys, erase-NodupKeys}
use cluster_node_tuning_oper.Daemon.Builtin.{Bytes}
use cluster_node_tuning_oper.Daemon.Includes.{Entry, conf, is_set}
use cluster_node_tuning_oper.Daemon.Extract.{
  Files, Extraction, is_stale, remove_profile, stale_loop, profiles_sync, profiles_extract,
  extract_loop, is_dir, TunedProfile, recommended_deps,
}
use cluster_node_tuning_oper.Daemon.Includes.Reach.{eq_of_equal}
use cluster_node_tuning_oper.Daemon.Extract.Written.{
  Succeeds, defined, last_of, entry_after, is_some, IsClear, Distinct, outdated,
  extract_loop-AllWritten, extract_loop-change,
}

-- An entry with this name and a profile in it that is no longer defined.
stale_in : Bytes → Dict Bytes Bool → Dict Bytes Entry → Bool
stale_in j extracted [] = false
stale_in j extracted ((name, e) ∷ entries) =
    (j == name && is_stale name e extracted) || stale_in j extracted entries

-- Such an entry for a name that the recommended profile depends on.
unfoldable pub removes_dep : Dict Bytes Bool → Dict Bytes Bool → Dict Bytes Entry → Bool
removes_dep deps extracted [] = false
removes_dep deps extracted ((name, e) ∷ entries) =
    (is_stale name e extracted && is_set name deps) || removes_dep deps extracted entries

stale_at : Bytes → Dict Bytes Bool → Option Entry → Bool
stale_at j extracted none = false
stale_at j extracted (some e) = is_stale j e extracted

stale_in-lookup :
    (j : Bytes) (extracted : Dict Bytes Bool) (entries : Dict Bytes Entry)
    → NodupKeys entries
    → stale_in j extracted entries ≡ stale_at j extracted (lookup j entries)
unfolding stale_in stale_at lookup
stale_in-lookup j x [] u = refl
stale_in-lookup j x ((name, e) ∷ entries) (fresh, u) = elim (Bool-cases (j == name)) [
  | inl same ↦ let q = eq_of_equal j name same in ground (arith, stale_in-lookup j x entries u)
  | inr other ↦ ground (arith, stale_in-lookup j x entries u)
]

module _ (files : Files) (h : Succeeds files) (deps : Dict Bytes Bool) where
  record Removed (entries : Dict Bytes Entry) (st st' : Extraction) : Type 0 where
    fine : st'.failed ≡ st.failed
    kept :
        (j : Bytes)
        → lookup j st'.dir ≡ (if stale_in j st.extracted entries then none else lookup j st.dir)
    keys : NodupKeys st.dir → NodupKeys st'.dir
    flag : st'.change ≡ (st.change || removes_dep deps st.extracted entries)

  stale_loop-Removed :
      (entries : Dict Bytes Entry) (st : Extraction)
      → Removed entries st (stale_loop files deps entries st)
  unfolding stale_loop stale_in removes_dep remove_profile
  stale_loop-Removed [] st = record {
    fine = refl;
    kept = λ j. refl;
    keys = λ u. u;
    flag = ground arith;
  }
  stale_loop-Removed ((name, e) ∷ entries) st = elim (Bool-cases (is_stale name e st.extracted)) [
    | inl stale ↦
        let st' = remove_profile deps name st in
        let r = stale_loop-Removed entries st' in
        rw (stale, stale_loop)
          (rw (h.removes name, stale_loop)
            (record {
              fine = r.fine;
              kept = λ j. ground (arith, r.kept j, lookup-erase j name st.dir);
              keys = λ u. r.keys (erase-NodupKeys name st.dir u);
              flag = ground (arith, r.flag);
            }))
    | inr fresh ↦
        let r = stale_loop-Removed entries st in
        rw (fresh, stale_loop)
          (record {
            fine = r.fine;
            kept = λ j. ground (arith, r.kept j);
            keys = r.keys;
            flag = ground (arith, r.flag);
          })
  ]

-- What the directory holds under a name afterwards: the data of the last profile of that name, or else
-- what is no directory of a profile.
abbrev pub synced_entry : Bytes → Option Bytes → Option Entry → Option Entry
synced_entry j (some text) old = some (conf text)
synced_entry j none none = none
synced_entry j none (some e) = if is_dir e && not (j == []) then none else some e

is_set-nil : (j : Bytes) → is_set j [] ≡ false
is_set-nil j = unfold is_set in unfold lookup in refl

synced-cases :
    (j : Bytes) (x : Dict Bytes Bool) (last : Option Bytes) (old : Option Entry)
    → is_set j x ≡ (is_some last || is_set j [])
    → (if stale_at j x (entry_after last old) then none else entry_after last old)
      ≡ synced_entry j last old
unfolding stale_at is_stale is_dir
synced-cases j x none none e = refl
synced-cases j x none (some d) e = ground (arith, is_set-nil j)
synced-cases j x (some t) old e = ground arith

-- A profile that is not listed any more, with a directory.
abbrev pub Dropped : List (Bytes × Bytes) → Dict Bytes Entry → Bytes → Type 0
Dropped pairs dir j =
    (e : Entry) × (lookup j dir ≡ some e) × (is_dir e ≡ true) × (j ≢ []) × (last_of j pairs ≡ none)

abbrev StaleDep : Dict Bytes Bool → Dict Bytes Bool → Dict Bytes Entry → Bytes → Type 0
StaleDep deps x entries j =
    (e : Entry) × (lookup j entries ≡ some e) × (is_stale j e x ≡ true) × (is_set j deps ≡ true)

removes_dep-stale :
    (deps x : Dict Bytes Bool) (entries : Dict Bytes Entry)
    → NodupKeys entries
    → removes_dep deps x entries ≡ true
    → (j : Bytes) × StaleDep deps x entries j
unfolding removes_dep lookup
removes_dep-stale deps x [] u h = cc
removes_dep-stale deps x ((name, e) ∷ entries) (fresh, u) h =
    elim (or_true (is_stale name e x && is_set name deps) (removes_dep deps x entries) h) [
      | inl here ↦ (name, (e, ground arith, ground arith, ground arith))
      | inr there ↦
          let (j, (d, found, stale, dep)) = removes_dep-stale deps x entries u there in
          (j, (d, ground arith, stale, dep))
    ]

stale-removes_dep :
    (deps x : Dict Bytes Bool) (entries : Dict Bytes Entry) (j : Bytes)
    → StaleDep deps x entries j
    → removes_dep deps x entries ≡ true
unfolding removes_dep lookup
stale-removes_dep deps x [] j (e, found, stale, dep) = cc
stale-removes_dep deps x ((name, d) ∷ entries) j (e, found, stale, dep) =
    elim (Bool-cases (j == name)) [
      | inl same ↦ let q = eq_of_equal j name same in ground arith
      | inr other ↦ ground (arith, stale-removes_dep deps x entries j (e, ground arith, stale, dep))
    ]

dropped_of_stale :
    (j : Bytes) (x : Dict Bytes Bool) (last : Option Bytes) (old : Option Entry) (e : Entry)
    → is_set j x ≡ (is_some last || is_set j [])
    → entry_after last old ≡ some e
    → is_stale j e x ≡ true
    → (old ≡ some e) × (is_dir e ≡ true) × (j ≢ []) × (last ≡ none)
unfolding is_stale
dropped_of_stale j x none old e n q s = (q, ground arith, λ z. ground arith, refl)
dropped_of_stale j x (some t) old e n q s = ground arith

stale_of_dropped :
    (j : Bytes) (x : Dict Bytes Bool) (last : Option Bytes) (old : Option Entry) (e : Entry)
    → is_set j x ≡ (is_some last || is_set j [])
    → (old ≡ some e) × (is_dir e ≡ true) × (j ≢ []) × (last ≡ none)
    → (entry_after last old ≡ some e) × (is_stale j e x ≡ true)
unfolding is_stale
stale_of_dropped j x none old e n (q, d, ne, l) = (q, ground (arith, is_set-nil j))
stale_of_dropped j x (some t) old e n (q, d, ne, l) = cc

module _ (files : Files) (depends : Dict Bytes Entry → Bytes → Dict Bytes Bool)
    (profiles : List TunedProfile) (recommended : Bytes) (dir : Dict Bytes Entry) where
  abbrev started : Extraction
  started = record { dir = dir; change = false; extracted = []; failed = false }

  abbrev deps : Dict Bytes Bool
  deps = recommended_deps depends recommended dir

  abbrev written : Extraction
  written = extract_loop files deps profiles started

  profiles_sync-remove :
      Succeeds files
      → written.failed ≡ false
      → profiles_sync files depends profiles recommended dir
        ≡ stale_loop files deps written.dir written
  unfolding profiles_sync profiles_extract
  profiles_sync-remove h f = ground (arith, h.reads)

  -- Where no operation fails, the directory of custom profiles holds under each name the data of the last profile of that name that has data,
  -- and nothing of profiles that are not listed; what is no directory stays. The directory has
  -- one entry for a name, and no profile has the name of something that is no directory.
  pub profiles_sync-synced :
      Succeeds files
      → NodupKeys dir
      → IsClear (defined profiles) dir
      → ((profiles_sync files depends profiles recommended dir).failed ≡ false)
        × ((j : Bytes)
            → lookup j (profiles_sync files depends profiles recommended dir).dir
              ≡ synced_entry j (last_of j (defined profiles)) (lookup j dir))
  profiles_sync-synced h u c =
      let w = extract_loop-AllWritten files deps profiles started h refl c in
      let r = stale_loop-Removed files h deps written.dir written in
      rw (profiles_sync-remove h w.fine) (
        r.fine ∙ w.fine,
        λ j.
            let x = written.extracted in
            r.kept j
            ∙ ap₂ (λ (b : Bool) (o : Option Entry). if b then none else o)
                (stale_in-lookup j x written.dir (w.keys u) ∙ ap (stale_at j x) (w.entries j))
                (w.entries j)
            ∙ synced-cases j x (last_of j (defined profiles)) (lookup j dir) (w.names j),
      )

  pub profiles_sync-NodupKeys :
      Succeeds files
      → NodupKeys dir
      → IsClear (defined profiles) dir
      → NodupKeys (profiles_sync files depends profiles recommended dir).dir
  profiles_sync-NodupKeys h u c =
      let w = extract_loop-AllWritten files deps profiles started h refl c in
      let r = stale_loop-Removed files h deps written.dir written in
      rw (profiles_sync-remove h w.fine) (r.keys (w.keys u))

  -- Where no operation fails, a change is reported exactly if the recommended profile, or one that it depends on, is to hold
  -- something new, or one of them has a directory and is not listed any more. The directory has one entry for a name, no profile has the name of
  -- something that is no directory, and no two profiles have one name.
  pub profiles_sync-change :
      Succeeds files
      → NodupKeys dir
      → IsClear (defined profiles) dir
      → Distinct (defined profiles)
      → ((profiles_sync files depends profiles recommended dir).change ≡ true) ↔ (
          (outdated deps (defined profiles) dir ≡ true)
          ⊎ ((j : Bytes) × Dropped (defined profiles) dir j × (is_set j deps ≡ true)))
  profiles_sync-change h u c d =
      let w = extract_loop-AllWritten files deps profiles started h refl c in
      let r = stale_loop-Removed files h deps written.dir written in
      let pairs = defined profiles in
      let flag = extract_loop-change files deps profiles started h refl c d in
      let change : (profiles_sync files depends profiles recommended dir).change
          ≡ (outdated deps pairs dir || removes_dep deps written.extracted written.dir) =
        rw (profiles_sync-remove h w.fine)
          (r.flag ∙ ap (λ (b : Bool). b || removes_dep deps written.extracted written.dir) flag) in
      (
        λ e.
            elim (or_true (outdated deps pairs dir) (removes_dep deps written.extracted written.dir)
              (sym change ∙ e)) [
                | inl new ↦ inl new
                | inr gone ↦
                    let (j, (old, found, stale, dep)) =
                      removes_dep-stale deps written.extracted written.dir (w.keys u) gone in
                    let (a, b, ne, l) =
                      dropped_of_stale j written.extracted (last_of j pairs) (lookup j dir) old
                        (w.names j) (sym (w.entries j) ∙ found) stale in
                    inr (j, (old, a, b, ne, l), dep)
              ],
        λ s. change ∙ elim s [
          | inl new ↦ ground arith
          | inr (j, (old, a, b, ne, l), dep) ↦
              let (found, stale) =
                stale_of_dropped j written.extracted (last_of j pairs) (lookup j dir) old
                  (w.names j) (a, b, ne, l) in
              ground (
                arith,
                stale-removes_dep deps written.extracted written.dir j
                    (old, w.entries j ∙ found, stale, dep),
              )
        ],
      )
