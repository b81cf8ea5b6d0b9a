-- ===== src/Daemon/Syncer/Quiet.antt =====
-- pkg/tuned/controller.go: a change that the node is in step with already leaves the daemon alone.
use cluster_node_tuning_oper.Daemon.Syncer.{text_of}
use cluster_node_tuning_oper.Base.{
  ℕ, nat_eq, list_eq, bool_eq, ◌≡◌, ◌≢◌, refl, arith, Bool, true, false, Option, some, List, ◌∙◌,
  ap, sym,
}
use cluster_node_tuning_oper.Operator.Types.{TunedProfile}
use cluster_node_tuning_oper.Daemon.Builtin.{Bytes}
use cluster_node_tuning_oper.Daemon.Status.{has_bit, sc_reloading}
use cluster_node_tuning_oper.Daemon.Control.{
  ctrl_reload, ctrl_restart, ctrl_debug, restart_or_reload, Command, no_process,
}
use cluster_node_tuning_oper.Daemon.Extract.{profiles_sync}
use cluster_node_tuning_oper.Daemon.Extract.Provider.{provider_sync}
use cluster_node_tuning_oper.Daemon.Syncer.{
  Env, Change, Node, Progress, goes_on, change_provider, sync_recommended, sync_profiles,
  sync_debug, sync_reapply, sync_config, sync_daemon, change_syncer_tuned, change_syncer,
  reapply_is, debug_bits, ◌and_then◌,
}
use cluster_node_tuning_oper.Daemon.Syncer.Steps.{Fine, recommendation}
use cluster_node_tuning_oper.Daemon.Syncer.Converges.{change_syncer_lem}
use cluster_node_tuning_oper.Base.Dict.{NodupKeys}
use cluster_node_tuning_oper.Daemon.Extract.Again.{profiles_sync-settled}
use cluster_node_tuning_oper.Daemon.Extract.Written.{defined, IsClear, Distinct}

module _ (env : Env) (change : Change) (profiles : List TunedProfile) (fine : Fine env) where
  -- A part goes on, asks for no reload, and leaves the controller, the option and the directory.
  abbrev Leaves : Progress → Progress → Type 0
  Leaves p p' =
      (p'.outcome ≡ goes_on)
      × (p'.reload ≡ false)
      × (p'.node.control ≡ p.node.control)
      × (p'.node.reapply ≡ p.node.reapply)

  provider_quiet :
      (p : Progress)
      → p.reload ≡ false
      → p.node.provider_file ≡ some change.provider
      → Leaves p (change_provider env change p)
        × ((change_provider env change p).node.custom ≡ p.node.custom)
  unfolding change_provider provider_sync
  provider_quiet p e h = ground (arith, fine.provider.readable)

  recommended_quiet :
      (p : Progress)
      → p.outcome ≡ goes_on
      → p.reload ≡ false
      → p.node.control.daemon.recommended_profile ≡ change.recommended_profile
      → Leaves p (sync_recommended env change p)
        × ((sync_recommended env change p).node.custom ≡ p.node.custom)
  unfolding sync_recommended
  recommended_quiet p g e h = ground (arith, fine.reports)

  profiles_quiet :
      (p : Progress)
      → p.reload ≡ false
      → env.profiles ≡ some profiles
      → let synced =
          profiles_sync env.files env.depends profiles p.node.control.daemon.recommended_profile
            p.node.custom in
        synced.change ≡ false → synced.failed ≡ false → Leaves p (sync_profiles env change p)
  unfolding sync_profiles
  profiles_quiet p e h c f = ground arith

  options_quiet :
      (p : Progress)
      → p.outcome ≡ goes_on
      → p.reload ≡ false
      → has_bit p.node.control.daemon.restart ctrl_debug ≡ change.debug
      → reapply_is env change p.node.reapply ≡ change.reapply_sysctl
      → let p' = sync_reapply env change (sync_debug env change p) in
        (p'.outcome ≡ goes_on) × (p'.reload ≡ false) × (p'.node.control ≡ p.node.control)
  unfolding sync_debug sync_reapply debug_bits
  options_quiet p g e d r = ground arith

  -- What a node has whose daemon needs neither a reload nor a restart for the change.
  record Ready (n : Node) : Type 0 where
    provider : n.provider_file ≡ some change.provider
    cache : n.control.daemon.recommended_profile ≡ change.recommended_profile
    unchanged :
        (profiles_sync env.files env.depends profiles n.control.daemon.recommended_profile
          n.custom).change
        ≡ false
    written :
        (profiles_sync env.files env.depends profiles n.control.daemon.recommended_profile
          n.custom).failed
        ≡ false
    reapply : reapply_is env change n.reapply ≡ change.reapply_sysctl
    debug : has_bit n.control.daemon.restart ctrl_debug ≡ change.debug
    no_reload : has_bit n.control.daemon.restart ctrl_reload ≡ false
    no_restart : has_bit n.control.daemon.restart ctrl_restart ≡ false
    idle : has_bit n.control.daemon.status sc_reloading ≡ false

  module _ (n : Node) (r : Ready n) where
    abbrev q0 : Progress
    q0 = record { node = n; reload = false; outcome = goes_on }

    abbrev q1 : Progress
    q1 = change_provider env change q0

    abbrev q2 : Progress
    q2 = sync_recommended env change q1

    abbrev q3 : Progress
    q3 = sync_profiles env change q2

    sync_config-quiet :
        env.profiles ≡ some profiles
        → let p' = sync_config env change q0 in
          (p'.outcome ≡ goes_on) × (p'.reload ≡ false) × (p'.node.control ≡ n.control)
    unfolding sync_config ◌and_then◌ sync_debug
    sync_config-quiet e =
        let ((g1, e1, c1, a1), d1) = provider_quiet q0 refl r.provider in
        let ((g2, e2, c2, a2), d2) = recommended_quiet q1 g1 e1 (rw c1 r.cache) in
        let (g3, e3, c3, a3) =
          profiles_quiet q2 e2 e (rw (c2 ∙ c1, d2 ∙ d1) r.unchanged)
            (rw (c2 ∙ c1, d2 ∙ d1) r.written) in
        let c = c3 ∙ c2 ∙ c1 in
        let a = a3 ∙ a2 ∙ a1 in
        let (g5, e5, c5) = options_quiet q3 g3 e3 (rw c r.debug) (rw a r.reapply) in ground arith

    change_syncer-Ready :
        change.profile ≡ true
        → env.profiles ≡ some profiles
        → ((change_syncer env change n).0.control ≡ n.control)
          × ((change_syncer env change n).1 ≡ true)
          × ((change_syncer env change n).2 ≡ false)
    unfolding change_syncer change_syncer_tuned sync_daemon restart_or_reload
    change_syncer-Ready is_profile e =
        let (g, l, c) = sync_config-quiet e in
        ground (arith, fine.reports, r.idle, r.no_reload, r.no_restart)

-- A node whose daemon has gone on by itself: it has another status, another message, another process.
abbrev pub later : ℕ → Bytes → Command → Node → Node
later status stderr command n = record n {
  control = record n.control {
    daemon = record n.control.daemon { status = status; stderr = stderr };
    command = command;
  };
}

-- Once a change of the Profile is synced and the daemon has finished reloading, syncing the same change again
-- leaves the controller as it is, and no signal is sent and nothing started, whatever the daemon's status and message have become. The change was synced under the
-- conditions of change_syncer-InStep but for that on tuned-main.conf, no call of other code fails the second time either, the profiles are the same, and no two of them have one
-- name.
pub change_syncer-settles :
    (env env' : Env) (change : Change) (profiles : List TunedProfile) (n : Node) (status : ℕ)
    (stderr : Bytes) (command : Command)
    → Fine env
    → Fine env'
    → (env.must_bool ≡ env'.must_bool)
    → change.profile ≡ true
    → env.profiles ≡ some profiles
    → env'.profiles ≡ some profiles
    → has_bit n.control.daemon.status sc_reloading ≡ false
    → n.control.command ≢ no_process
    → n.recommend_file ≡ some (recommendation n.control.daemon.recommended_profile)
    → NodupKeys n.custom
    → IsClear (defined profiles) n.custom
    → Distinct (defined profiles)
    → has_bit status sc_reloading ≡ false
    → let m = later status stderr command (change_syncer env change n).0 in
      ((change_syncer env' change m).0.control ≡ m.control)
      × ((change_syncer env' change m).1 ≡ true)
      × ((change_syncer env' change m).2 ≡ false)
change_syncer-settles env env' change profiles n status stderr command fine fine' same is_profile e
      e' idle runs agrees u c d finished =
    let m = later status stderr command (change_syncer env change n).0 in
    let (_, _, s) =
      change_syncer_lem env change profiles n fine is_profile e idle runs agrees u c in
    let (unchanged, written) =
      profiles_sync-settled env'.files env'.depends profiles m.control.daemon.recommended_profile
        n.custom m.custom fine'.files s.keys d s.custom in
    change_syncer-Ready env' change profiles fine' m
      (record {
        provider = s.provider;
        cache = s.cache;
        unchanged = unchanged;
        written = written;
        reapply = reads_alike (change_syncer env change n).0.reapply s.reapply;
        debug = s.debug;
        no_reload = s.no_reload;
        no_restart = s.no_restart;
        idle = finished;
      })
      is_profile e'
  where
    reads_alike :
        (o : Option Bytes)
        → reapply_is env change o ≡ change.reapply_sysctl
        → reapply_is env' change o ≡ change.reapply_sysctl
    reads_alike o h = unfold reapply_is in (ap (λ (f : Bytes → Bool). f (text_of o)) (sym same) ∙ h)
