-- ===== src/Daemon/Extract/Written.antt =====
-- pkg/tuned/controller.go: what ProfilesExtract writes where no operation fails.
use cluster_node_tuning_oper.Base.{
  nat_eq, list_eq, ◌≡◌, refl, arith, Option, none, some, List, [], ◌∷◌, if◌then◌else◌, ◌==◌, inl,
  inr, utf8, ◌&&◌, ◌||◌, not, Bool, true, ◌≢◌, false, Option-cases, All, ◌∙◌,
}
use cluster_node_tuning_oper.Base.Dict.{
  Dict, lookup, insert, lookup-insert, NodupKeys, insert-NodupKeys,
}
use cluster_node_tuning_oper.Daemon.Builtin.{Bytes}
use cluster_node_tuning_oper.Daemon.Includes.{
  Entry, no_dir, empty_dir, unreadable, conf, content, is_set,
}
use cluster_node_tuning_oper.Daemon.Includes.Reach.{is_set-insert}
use cluster_node_tuning_oper.Daemon.Extract.{
  Files, Extraction, extract_loop, extract_profile, make_profile_dir, write_profile, TunedProfile,
  profiles_equal,
}

-- No operation fails, and a file holds what is written to it.
pub record Succeeds (files : Files) : Type 0 where
  pub makes : (name : Bytes) → files.make_dir name ≡ true
  pub creates : (name : Bytes) → files.create name ≡ true
  pub writes : (name text : Bytes) → files.write name text ≡ (text, true)
  pub reads : files.read_dir ≡ true
  pub removes : (name : Bytes) → files.remove_all name ≡ true

-- The profiles that have a name and data.
abbrev pub defined : List TunedProfile → List (Bytes × Bytes)
defined [] = []
defined (p ∷ ps) = elim p.name [
  | none ↦ defined ps
  | some name ↦ elim p.contents [
    | none ↦ defined ps
    | some text ↦ (utf8 name, utf8 text) ∷ defined ps
  ]
]

-- The data of the last profile of a name.
unfoldable pub last_of : Bytes → List (Bytes × Bytes) → Option Bytes
last_of j [] = none
last_of j ((name, text) ∷ pairs) = elim (last_of j pairs) [
  | some t ↦ some t
  | none ↦ if j == name then some text else none
]

-- What a directory holds under a name once the profiles are written.
abbrev pub entry_after : Option Bytes → Option Entry → Option Entry
entry_after none old = old
entry_after (some text) old = some (conf text)

abbrev pub is_some {ℓ} : {A : Type ℓ} → Option A → Bool
is_some none = false
is_some (some _) = true

-- No name that is to be written belongs to something that is no directory.
abbrev pub IsClear : List (Bytes × Bytes) → Dict Bytes Entry → Type 0
IsClear [] dir = Unit
IsClear ((name, _) ∷ pairs) dir = (lookup name dir ≢ some no_dir) × IsClear pairs dir

module _ (files : Files) (deps : Dict Bytes Bool) where
  -- The loop over the profiles that have a name and data.
  run_pairs : List (Bytes × Bytes) → Extraction → Extraction
  run_pairs [] st = st
  run_pairs ((name, text) ∷ pairs) st =
      let st' = extract_profile files deps name text st in
      elim st'.failed [ true ↦ st' | false ↦ run_pairs pairs st' ]

  extract_loop-run_pairs :
      (profiles : List TunedProfile) (st : Extraction)
      → extract_loop files deps profiles st ≡ run_pairs (defined profiles) st
  unfolding extract_loop run_pairs
  extract_loop-run_pairs [] st = refl
  extract_loop-run_pairs (p ∷ ps) st = elim (Option-cases p.name) [
    | inl no_name ↦ rw (no_name, extract_loop, defined) (extract_loop-run_pairs ps st)
    | inr (name, e) ↦ elim (Option-cases p.contents) [
      | inl no_data ↦ ground (arith, extract_loop-run_pairs ps st)
      | inr (text, e') ↦
          ground (
            arith,
            extract_loop-run_pairs ps (extract_profile files deps (utf8 name) (utf8 text) st),
          )
    ]
  ]

-- A directory is made for a name, and nothing else changes.
record Made (files : Files) (name : Bytes) (dir : Dict Bytes Entry) : Type 0 where
  made : Dict Bytes Entry
  result : make_profile_dir files name dir ≡ some made
  others : (j : Bytes) → (j == name) ≡ false → lookup j made ≡ lookup j dir
  same : content name made ≡ content name dir
  keys : NodupKeys dir → NodupKeys made

-- All profiles.
pub record AllWritten (pairs : List (Bytes × Bytes)) (st st' : Extraction) : Type 0 where
  pub fine : st'.failed ≡ false
  pub entries : (j : Bytes) → lookup j st'.dir ≡ entry_after (last_of j pairs) (lookup j st.dir)
  pub names :
      (j : Bytes) → is_set j st'.extracted ≡ (is_some (last_of j pairs) || is_set j st.extracted)
  pub keys : NodupKeys st.dir → NodupKeys st'.dir

module _ (files : Files) (h : Succeeds files) (name : Bytes) (dir : Dict Bytes Entry) where
  make_profile_dir-keeps : make_profile_dir files name dir ≡ some dir → Made files name dir
  make_profile_dir-keeps e = record {
    made = dir;
    result = e;
    others = λ j n. refl;
    same = refl;
    keys = λ u. u;
  }

  make_profile_dir-Made :
      (o : Option Entry) → lookup name dir ≡ o → o ≢ some no_dir → Made files name dir
  unfolding make_profile_dir
  make_profile_dir-Made none e n = record {
    made = insert name empty_dir dir;
    result = ground (arith, h.makes name);
    others = λ j other. ground (arith, lookup-insert j name empty_dir dir);
    same = unfold content in ground (arith, lookup-insert name name empty_dir dir);
    keys = insert-NodupKeys name empty_dir dir;
  }
  make_profile_dir-Made (some no_dir) e n = absurd (n refl)
  make_profile_dir-Made (some empty_dir) e n = make_profile_dir-keeps (ground arith)
  make_profile_dir-Made (some unreadable) e n = make_profile_dir-keeps (ground arith)
  make_profile_dir-Made (some (conf t)) e n = make_profile_dir-keeps (ground arith)

module _ (files : Files) (h : Succeeds files) (deps : Dict Bytes Bool) where
  write_profile-done :
      (name text : Bytes) (st : Extraction)
      → write_profile files name text st ≡ record st {
        dir = insert name (conf text) st.dir;
        extracted = insert name true st.extracted;
      }
  unfolding write_profile
  write_profile-done name text st = rw (h.creates name, h.writes name text) refl

  -- One profile.
  record Written (name text : Bytes) (st st' : Extraction) : Type 0 where
    fine : st'.failed ≡ st.failed
    entries :
        (j : Bytes) → lookup j st'.dir ≡ (if j == name then some (conf text) else lookup j st.dir)
    names :
        (j : Bytes) → is_set j st'.extracted ≡ (if j == name then true else is_set j st.extracted)
    keys : NodupKeys st.dir → NodupKeys st'.dir
    flag :
        st'.change
        ≡ (if is_set name deps then st.change || not (text == content name st.dir) else st.change)

  extract_profile-Written :
      (name text : Bytes) (st : Extraction)
      → lookup name st.dir ≢ some no_dir
      → Written name text st (extract_profile files deps name text st)
  unfolding extract_profile profiles_equal
  extract_profile-Written name text st clear =
      let m = make_profile_dir-Made files h name st.dir (lookup name st.dir) refl clear in
      rw (m.result, extract_profile)
        (rw (write_profile-done) (record {
          fine = refl;
          entries = λ j. ground (arith, lookup-insert j name (conf text) m.made, m.others j);
          names = λ j. is_set-insert j name st.extracted;
          keys = λ u. insert-NodupKeys name (conf text) m.made (m.keys u);
          flag = rw m.same refl;
        }))

  IsClear-Written :
      (pairs : List (Bytes × Bytes)) (name text : Bytes) (st st' : Extraction)
      → Written name text st st'
      → IsClear pairs st.dir
      → IsClear pairs st'.dir
  IsClear-Written [] name text st st' w c = tt
  IsClear-Written ((n, t) ∷ pairs) name text st st' w (c, cs) =
      (λ e. c (same (w.entries n) e), IsClear-Written pairs name text st st' w cs)
    where
      same :
          lookup n st'.dir ≡ (if n == name then some (conf text) else lookup n st.dir)
          → lookup n st'.dir ≡ some no_dir
          → lookup n st.dir ≡ some no_dir
      same a b = ground arith

  run_pairs-AllWritten :
      (pairs : List (Bytes × Bytes)) (st : Extraction)
      → st.failed ≡ false
      → IsClear pairs st.dir
      → AllWritten pairs st (run_pairs files deps pairs st)
  unfolding last_of run_pairs
  run_pairs-AllWritten [] st f c = record {
    fine = f;
    entries = λ j. refl;
    names = λ j. refl;
    keys = λ u. u;
  }
  run_pairs-AllWritten ((name, text) ∷ pairs) st f (c, cs) =
      let st' = extract_profile files deps name text st in
      let w = extract_profile-Written name text st c in
      let r =
        run_pairs-AllWritten pairs st' (w.fine ∙ f) (IsClear-Written pairs name text st st' w cs) in
      rw (w.fine ∙ f, run_pairs)
        (record {
          fine = r.fine;
          entries = λ j. ground (arith, r.entries j, w.entries j);
          names = λ j. ground (arith, r.names j, w.names j);
          keys = λ u. r.keys (w.keys u);
        })

-- The names are different.
abbrev pub Distinct : List (Bytes × Bytes) → Type 0
Distinct [] = Unit
Distinct ((name, _) ∷ pairs) = All (λ (n, _). (n == name) ≡ false) pairs × Distinct pairs

-- Whether the recommended profile, or one that it depends on, is to hold something new.
unfoldable pub outdated : Dict Bytes Bool → List (Bytes × Bytes) → Dict Bytes Entry → Bool
outdated deps [] dir = false
outdated deps ((name, text) ∷ pairs) dir =
    (is_set name deps && not (text == content name dir)) || outdated deps pairs dir

outdated-eq :
    (deps : Dict Bytes Bool) (name : Bytes) (pairs : List (Bytes × Bytes)) (d d' : Dict Bytes Entry)
    → All (λ (n, _). (n == name) ≡ false) pairs
    → ((j : Bytes) → (j == name) ≡ false → content j d' ≡ content j d)
    → outdated deps pairs d' ≡ outdated deps pairs d
unfolding outdated
outdated-eq deps name [] d d' h same = refl
outdated-eq deps name ((n, t) ∷ pairs) d d' (h, hs) same =
    rw (same n h, outdated-eq deps name pairs d d' hs same) refl

module _ (files : Files) (h : Succeeds files) (deps : Dict Bytes Bool) where
  run_pairs-change :
      (pairs : List (Bytes × Bytes)) (st : Extraction)
      → st.failed ≡ false
      → IsClear pairs st.dir
      → Distinct pairs
      → (run_pairs files deps pairs st).change ≡ (st.change || outdated deps pairs st.dir)
  unfolding run_pairs outdated
  run_pairs-change [] st f c d = ground arith
  run_pairs-change ((name, text) ∷ pairs) st f (c, cs) (d, ds) =
      let st' = extract_profile files deps name text st in
      let w = extract_profile-Written files h deps name text st c in
      let r =
        run_pairs-change pairs st' (w.fine ∙ f)
          (IsClear-Written files h deps pairs name text st st' w cs) ds in
      let same =
        outdated-eq deps name pairs st.dir st'.dir d
          (λ j n. unfold content in ground (arith, w.entries j)) in
      rw (w.fine ∙ f, run_pairs) (ground (arith, r, w.flag, same))

-- The loop of ProfilesExtract, from no error.
pub extract_loop-AllWritten :
    (files : Files) (deps : Dict Bytes Bool) (profiles : List TunedProfile) (st : Extraction)
    → Succeeds files
    → st.failed ≡ false
    → IsClear (defined profiles) st.dir
    → AllWritten (defined profiles) st (extract_loop files deps profiles st)
extract_loop-AllWritten files deps profiles st h f c =
    rw (extract_loop-run_pairs files deps profiles st)
      (run_pairs-AllWritten files h deps (defined profiles) st f c)

pub extract_loop-change :
    (files : Files) (deps : Dict Bytes Bool) (profiles : List TunedProfile) (st : Extraction)
    → Succeeds files
    → st.failed ≡ false
    → IsClear (defined profiles) st.dir
    → Distinct (defined profiles)
    → (extract_loop files deps profiles st).change
      ≡ (st.change || outdated deps (defined profiles) st.dir)
extract_loop-change files deps profiles st h f c d =
    rw (extract_loop-run_pairs files deps profiles st)
      (run_pairs-change files h deps (defined profiles) st f c d)
