-- ===== src/Daemon/Syncer.antt =====
-- pkg/tuned/controller.go: changeSyncer, which brings the files and the TuneD daemon of a node in step
-- with a change; and iniCfgSetKey of pkg/tuned/tuned_parser.go. `must_bool` is how the package ini reads
-- a Boolean.
pub mod Steps
pub mod Converges
pub mod Quiet
use cluster_node_tuning_oper.Base.{
  ℕ, nat_eq, list_eq, bool_eq, ◌==◌, not, ◌||◌, Bool, true, false, List, [], ◌∷◌, ◌++◌, Option,
  none, some, utf8, if◌then◌else◌, ◌&&◌,
}
use cluster_node_tuning_oper.Base.Dict.{Dict}
use cluster_node_tuning_oper.Operator.Types.{TunedProfile}
use cluster_node_tuning_oper.Daemon.Builtin.{Bytes}
use cluster_node_tuning_oper.Daemon.Includes.{Entry}
use cluster_node_tuning_oper.Daemon.Extract.{Files, profiles_sync}
use cluster_node_tuning_oper.Daemon.Extract.Provider.{Output, provider_sync}
use cluster_node_tuning_oper.Daemon.Status.{has_bit, sc_reloading}
use cluster_node_tuning_oper.Daemon.Control.{
  Control, System, ctrl_reload, ctrl_restart, ctrl_debug, set_bit, clear_bit, restart_or_reload,
}

-- Change
pub record Change : Type 0 where
  pub profile : Bool
  pub profile_status : Bool
  pub debug : Bool
  pub provider : Bytes
  pub reapply_sysctl : Bool
  pub recommended_profile : Bytes

-- The controller with the files of its node. `reapply` is the value of reapply_sysctl in tunedMainCfg,
-- none where there is no such key, and `main_file` that in the file tuned-main.conf.
pub record Node : Type 0 where
  pub control : Control
  pub provider_file : Option Bytes
  pub recommend_file : Option Bytes
  pub custom : Dict Bytes Entry
  pub reapply : Option Bytes
  pub main_file : Option Bytes

-- What the calls of other code answer: the lister's profiles, none for an error, and whether
-- updateTunedProfile and the saving of tuned-main.conf succeed.
pub record Env : Type 0 where
  pub system : System
  pub provider : Output
  pub recommend_dir : Bool
  pub recommend : Output
  pub files : Files
  pub depends : Dict Bytes Entry → Bytes → Dict Bytes Bool
  pub profiles : Option (List TunedProfile)
  pub reports : Bool
  pub saves : Bool
  pub must_bool : Bytes → Bool

-- Whether to go on, to return no error for a later retry, or to return an error.
pub data Outcome : Type 0 where
  goes_on retry_later error : Outcome

pub record Progress : Type 0 where
  pub node : Node
  pub reload : Bool
  pub outcome : Outcome

infixl 5 ◌and_then◌
unfoldable pub ◌and_then◌ : Progress → (Progress → Progress) → Progress
p and_then f = elim p.outcome [ goes_on ↦ f p | retry_later ↦ p | error ↦ p ]

-- TunedRecommendFileWrite: the file, and whether there is no error.
unfoldable pub tuned_recommend_file_write : Env → Bytes → Option Bytes → Option Bytes × Bool
tuned_recommend_file_write env name file =
    if not env.recommend_dir
    then (file, false)
    else if not env.recommend.create
    then (file, false)
    else let (text, ok) = env.recommend.write (b'[' ∷ (name ++ b']' ∷ 10 ∷ [])) in (some text, ok)

-- iniCfgSetKey for a Boolean, none where the key is missing.
unfoldable pub ini_cfg_set_key : Option Bytes → Bool → Option Bytes
ini_cfg_set_key none value = none
ini_cfg_set_key (some _) value = some (if value then utf8 "1" else utf8 "0")

-- The text that is there, empty where there is none. Section.Key of the package ini adds a key that is
-- missing, with an empty value.
abbrev pub text_of : Option Bytes → Bytes
text_of none = []
text_of (some text) = text

module _ (env : Env) (change : Change) where
  unfoldable pub change_provider : Progress → Progress
  change_provider p =
      let synced = provider_sync env.provider change.provider p.node.provider_file in
      record {
        node = record p.node { provider_file = synced.file };
        reload = if synced.failed then p.reload else p.reload || synced.change;
        outcome = if synced.failed then error else goes_on;
      }

  unfoldable pub sync_recommended : Progress → Progress
  sync_recommended p =
      let daemon = p.node.control.daemon in
      if daemon.recommended_profile == change.recommended_profile
      then record p { outcome = if env.reports then goes_on else retry_later }
      else let (file, ok) =
          tuned_recommend_file_write env change.recommended_profile p.node.recommend_file in
        if ok
        then record p {
          node = record p.node {
            recommend_file = file;
            control = record p.node.control {
              daemon = record daemon { recommended_profile = change.recommended_profile };
            };
          };
          reload = true;
        }
        else record p { node = record p.node { recommend_file = file }; outcome = error }

  unfoldable pub sync_profiles : Progress → Progress
  sync_profiles p = elim env.profiles [
    | none ↦ record p { outcome = error }
    | some profiles ↦
        let synced =
          profiles_sync env.files env.depends profiles p.node.control.daemon.recommended_profile
            p.node.custom in
        record {
          node = record p.node { custom = synced.dir };
          reload = if synced.failed then p.reload else p.reload || synced.change;
          outcome = if synced.failed then error else goes_on;
        }
  ]

  -- The bits of a daemon that is to be restarted in the debug mode or out of it.
  unfoldable pub debug_bits : ℕ → ℕ
  debug_bits restart =
      if has_bit restart ctrl_debug == change.debug
      then restart
      else if change.debug
      then set_bit (set_bit restart ctrl_restart) ctrl_debug
      else clear_bit (set_bit restart ctrl_restart) ctrl_debug

  abbrev with_restart : ℕ → Node → Node
  with_restart bits n = record n {
    control = record n.control { daemon = record n.control.daemon { restart = bits } };
  }

  unfoldable pub sync_debug : Progress → Progress
  sync_debug p = record p { node = with_restart (debug_bits p.node.control.daemon.restart) p.node }

  -- `Key("reapply_sysctl").MustBool()`
  unfoldable pub reapply_is : Option Bytes → Bool
  reapply_is o = env.must_bool (text_of o)

  -- Reading the option leaves the key in tunedMainCfg.
  unfoldable pub sync_reapply : Progress → Progress
  sync_reapply p =
      let on = reapply_is p.node.reapply in
      let read = record p.node { reapply = some (text_of p.node.reapply) } in
      if on == change.reapply_sysctl
      then record p { node = read }
      else elim (ini_cfg_set_key read.reapply (not on)) [
        | none ↦ record p { node = read; outcome = error }
        | some text ↦
            let n = record read { reapply = some text } in
            if env.saves
            then record p {
              node =
                  with_restart (set_bit n.control.daemon.restart ctrl_restart)
                    (record n { main_file = some text });
            }
            else record p { node = n; outcome = error }
      ]

  -- The part of changeSyncerTuneD for a change of the Profile.
  unfoldable pub sync_config : Progress → Progress
  sync_config p =
      change_provider p
      and_then sync_recommended
      and_then sync_profiles
      and_then sync_debug
      and_then sync_reapply

  -- The part behind it.
  unfoldable pub sync_daemon : Node → Bool → Node × Bool × Bool
  sync_daemon n reload =
      let bits = n.control.daemon.restart in
      let n' = with_restart (if reload then set_bit bits ctrl_reload else bits) n in
      let (c, ok) = restart_or_reload env.system n'.control in
      (record n' { control = c }, ok, not ok)

  -- changeSyncerTuneD: the node, `synced`, and whether there is an error.
  unfoldable pub change_syncer_tuned : Node → Node × Bool × Bool
  change_syncer_tuned n =
      if has_bit n.control.daemon.status sc_reloading
      then (n, false, true)
      else let first : Progress = record { node = n; reload = false; outcome = goes_on } in
        let p = if change.profile then sync_config first else first in
        elim p.outcome [
          | goes_on ↦ sync_daemon p.node p.reload
          | retry_later ↦ (p.node, false, false)
          | error ↦ (p.node, false, true)
        ]

  -- changeSyncer, with changeSyncerProfileStatus
  unfoldable pub change_syncer : Node → Node × Bool × Bool
  change_syncer n =
      if change.profile_status && not env.reports then (n, false, false) else change_syncer_tuned n
