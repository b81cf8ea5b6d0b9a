-- ===== src/Daemon/Extract.antt =====
-- pkg/tuned/controller.go: the profiles of a Profile resource, written below the directory of custom
-- profiles, and the provider file. A name is one component of a path.
pub mod Written
pub mod Synced
pub mod Again
pub mod Provider
use cluster_node_tuning_oper.Base.{
  nat_eq, list_eq, ◌&&◌, ◌||◌, not, Option, some, none, String, List, [], ◌∷◌, utf8, ◌==◌, Bool,
  if◌then◌else◌, false, true,
}
use cluster_node_tuning_oper.Base.Dict.{Dict, lookup, insert, erase}
use cluster_node_tuning_oper.Operator.Types.{TunedProfile}
use cluster_node_tuning_oper.Daemon.Builtin.{Bytes}
use cluster_node_tuning_oper.Daemon.Includes.{
  Disk, Entry, no_dir, empty_dir, unreadable, conf, content, is_set,
}

-- Which operations on files succeed; `write` says what stands in a file after the attempt.
pub record Files : Type 0 where
  pub make_dir : Bytes → Bool
  pub create : Bytes → Bool
  pub write : Bytes → Bytes → Bytes × Bool
  pub read_dir : Bool
  pub remove_all : Bytes → Bool

-- profilesEqual
unfoldable pub profiles_equal : Bytes → Dict Bytes Entry → Bytes → Bool
profiles_equal name dir text = text == content name dir

-- The variables `change` and `extracted`, the directory, and whether there is an error.
pub record Extraction : Type 0 where
  pub dir : Dict Bytes Entry
  pub change : Bool
  pub extracted : Dict Bytes Bool
  pub failed : Bool

-- dirEntry.IsDir()
unfoldable pub is_dir : Entry → Bool
is_dir no_dir = false
is_dir empty_dir = true
is_dir unreadable = true
is_dir (conf _) = true

-- A profile that is no longer defined.
unfoldable pub is_stale : Bytes → Entry → Dict Bytes Bool → Bool
is_stale name entry extracted = is_dir entry && not (name == []) && not (is_set name extracted)

unfoldable pub remove_profile : Dict Bytes Bool → Bytes → Extraction → Extraction
remove_profile deps name st = record st {
  dir = erase name st.dir;
  change = if is_set name deps then true else st.change;
}

-- The recommended profile and those that it depends on. `depends` is what profileDepends says of a
-- directory.
unfoldable pub recommended_deps :
    (Dict Bytes Entry → Bytes → Dict Bytes Bool) → Bytes → Dict Bytes Entry → Dict Bytes Bool
recommended_deps depends recommended dir =
    if recommended == [] then [] else insert recommended true (depends dir recommended)

module _ (files : Files) where
  -- os.MkdirAll of a profile's directory, none where that fails.
  unfoldable pub make_profile_dir : Bytes → Dict Bytes Entry → Option (Dict Bytes Entry)
  make_profile_dir name dir = elim (lookup name dir) [
    | none ↦ if files.make_dir name then some (insert name empty_dir dir) else none
    | some no_dir ↦ none
    | some empty_dir ↦ some dir
    | some unreadable ↦ some dir
    | some (conf _) ↦ some dir
  ]

  -- os.Create and WriteString, behind the comparison with what the file held.
  unfoldable pub write_profile : Bytes → Bytes → Extraction → Extraction
  write_profile name text st =
      if not (files.create name)
      then record st { failed = true }
      else let (written, ok) = files.write name text in
        if ok
        then record st {
          dir = insert name (conf written) st.dir;
          extracted = insert name true st.extracted;
        }
        else record st { dir = insert name (conf written) st.dir; failed = true }

  -- The body of the loop of ProfilesExtract, for a profile with a name and data.
  unfoldable pub extract_profile : Dict Bytes Bool → Bytes → Bytes → Extraction → Extraction
  extract_profile deps name text st = elim (make_profile_dir name st.dir) [
    | none ↦ record st { failed = true }
    | some dir ↦ write_profile name text (record st {
      dir = dir;
      change =
          if is_set name deps then st.change || not (profiles_equal name dir text) else st.change;
    })
  ]

  unfoldable pub extract_loop : Dict Bytes Bool → List TunedProfile → Extraction → Extraction
  extract_loop deps [] st = st
  extract_loop deps (profile ∷ profiles) st = elim profile.name [
    | none ↦ extract_loop deps profiles st
    | some name ↦ elim profile.contents [
      | none ↦ extract_loop deps profiles st
      | some text ↦
          let st' = extract_profile deps (utf8 name) (utf8 text) st in
          elim st'.failed [ true ↦ st' | false ↦ extract_loop deps profiles st' ]
    ]
  ]

  -- ProfilesExtract.
  unfoldable pub profiles_extract :
      (Dict Bytes Entry → Bytes → Dict Bytes Bool)
      → List TunedProfile
      → Bytes
      → Dict Bytes Entry
      → Extraction × Dict Bytes Bool
  profiles_extract depends profiles recommended dir =
      let deps = recommended_deps depends recommended dir in
      (
        extract_loop deps profiles
            (record { dir = dir; change = false; extracted = []; failed = false }),
        deps,
      )

  unfoldable pub stale_loop : Dict Bytes Bool → Dict Bytes Entry → Extraction → Extraction
  stale_loop deps [] st = st
  stale_loop deps ((name, entry) ∷ entries) st = elim (is_stale name entry st.extracted) [
    | false ↦ stale_loop deps entries st
    | true ↦ elim (files.remove_all name) [
      | false ↦ record st { failed = true }
      | true ↦ stale_loop deps entries (remove_profile deps name st)
    ]
  ]

  -- The loop over the entries of the directory is `stale_loop`; an error ends it.
  unfoldable pub profiles_sync :
      (Dict Bytes Entry → Bytes → Dict Bytes Bool)
      → List TunedProfile
      → Bytes
      → Dict Bytes Entry
      → Extraction
  profiles_sync depends profiles recommended dir =
      let (st, deps) = profiles_extract depends profiles recommended dir in
      if st.failed
      then st
      else if not files.read_dir
      then record st { failed = true }
      else stale_loop deps st.dir st
