-- ===== src/Daemon/Syncer/Converges.antt =====
-- pkg/tuned/controller.go: after changeSyncer the node is as the Profile asks.
use cluster_node_tuning_oper.Daemon.Syncer.{text_of}
use cluster_node_tuning_oper.Daemon.Control.Process.{actions}
use cluster_node_tuning_oper.Base.{
  subst, Option, not, ◌||◌, ◌++◌, ◌==◌, ℕ, nat_eq, list_eq, bool_eq, ◌≡◌, ◌≢◌, refl, arith, Bool,
  true, false, if◌then◌else◌, some, List, ◌∙◌, ap, sym,
}
use cluster_node_tuning_oper.Base.Dict.{lookup, NodupKeys}
use cluster_node_tuning_oper.Operator.Types.{TunedProfile}
use cluster_node_tuning_oper.Daemon.Builtin.{Bytes}
use cluster_node_tuning_oper.Daemon.Status.{has_bit, sc_reloading}
use cluster_node_tuning_oper.Daemon.Control.{
  ctrl_reload, ctrl_restart, ctrl_debug, set_bit, no_process,
}
use cluster_node_tuning_oper.Daemon.Control.Bits.{Bits, Bits-refl, set_bit-reload}
use cluster_node_tuning_oper.Daemon.Control.Process.{restart_or_reload-Settled}
use cluster_node_tuning_oper.Daemon.Extract.{profiles_sync}
use cluster_node_tuning_oper.Daemon.Extract.Written.{defined, last_of, IsClear}
use cluster_node_tuning_oper.Daemon.Extract.Synced.{
  synced_entry, profiles_sync-NodupKeys, profiles_sync-synced,
}
use cluster_node_tuning_oper.Daemon.Syncer.{
  Env, Change, Node, Progress, goes_on, ◌and_then◌, change_provider, sync_recommended,
  sync_profiles, sync_debug, sync_reapply, sync_config, sync_daemon, change_syncer_tuned,
  change_syncer, reapply_is,
}
use cluster_node_tuning_oper.Daemon.Syncer.Steps.{
  Fine, recommendation, provider_lem, recommended_lem, profiles_lem, debug_lem, reapply_lem,
  sync_reapply-main_file,
}

and_then-goes_on :
    (p : Progress) (f : Progress → Progress) → p.outcome ≡ goes_on → (p and_then f) ≡ f p
unfolding ◌and_then◌
and_then-goes_on p f e = ground arith

-- A restart is asked for: it was, or the debug mode or the option is another one.
abbrev pub restart_asked : Env → Change → Node → Bool
restart_asked env change n =
    (has_bit n.control.daemon.restart ctrl_restart
      || not (has_bit n.control.daemon.restart ctrl_debug == change.debug))
    || not (reapply_is env change n.reapply == change.reapply_sysctl)

-- A part of the configuration that a reload reads is another one.
abbrev pub config_differs : Env → Change → List TunedProfile → Node → Bool
config_differs env change profiles n =
    (not (change.provider == text_of n.provider_file)
      || not (n.control.daemon.recommended_profile == change.recommended_profile))
    || (profiles_sync env.files env.depends profiles change.recommended_profile n.custom).change

-- A reload is asked for: it was, or the provider, the recommended profile or the profiles are others.
abbrev pub reload_asked : Env → Change → List TunedProfile → Node → Bool
reload_asked env change profiles n =
    has_bit n.control.daemon.restart ctrl_reload || config_differs env change profiles n

-- The node is as the change and the profiles ask but for tuned-main.conf, the daemon was restarted or reloaded as was needed
-- for that, and nothing is left to do.
pub record InStep (env : Env) (change : Change) (profiles : List TunedProfile) (n n' : Node)
    : Type 0 where
  pub provider : n'.provider_file ≡ some change.provider
  pub cache : n'.control.daemon.recommended_profile ≡ change.recommended_profile
  pub recommend : n'.recommend_file ≡ some (recommendation change.recommended_profile)
  pub custom :
      (j : Bytes)
      → lookup j n'.custom ≡ synced_entry j (last_of j (defined profiles)) (lookup j n.custom)
  pub keys : NodupKeys n'.custom
  pub reapply : reapply_is env change n'.reapply ≡ change.reapply_sysctl
  pub debug : has_bit n'.control.daemon.restart ctrl_debug ≡ change.debug
  pub no_reload : has_bit n'.control.daemon.restart ctrl_reload ≡ false
  pub no_restart : has_bit n'.control.daemon.restart ctrl_restart ≡ false
  pub trace :
      n'.control.trace
      ≡ n.control.trace
        ++ actions env.system n.control.command
            (restart_asked env change n)
            (reload_asked env change profiles n)
            change.debug

module _ (env : Env) (fine : Fine env) (change : Change) (profiles : List TunedProfile)
    (n : Node) where
  abbrev p0 : Progress
  p0 = record { node = n; reload = false; outcome = goes_on }

  abbrev p1 : Progress
  p1 = change_provider env change p0

  abbrev p2 : Progress
  p2 = sync_recommended env change p1

  abbrev p3 : Progress
  p3 = sync_profiles env change p2

  abbrev p5 : Progress
  p5 = sync_reapply env change (sync_debug env change p3)

  -- What holds once the files are written.
  record Configured (p : Progress) : Type 0 where
    goes : p.outcome ≡ goes_on
    provider : p.node.provider_file ≡ some change.provider
    cache : p.node.control.daemon.recommended_profile ≡ change.recommended_profile
    recommend : p.node.recommend_file ≡ some (recommendation change.recommended_profile)
    custom :
        (j : Bytes)
        → lookup j p.node.custom ≡ synced_entry j (last_of j (defined profiles)) (lookup j n.custom)
    keys : NodupKeys p.node.custom
    reapply : reapply_is env change p.node.reapply ≡ change.reapply_sysctl
    bits :
        Bits p.node.control.daemon.restart
          (has_bit n.control.daemon.restart ctrl_reload)
          (restart_asked env change n)
          change.debug
    reload : p.reload ≡ config_differs env change profiles n
    command : p.node.control.command ≡ n.control.command
    trace : p.node.control.trace ≡ n.control.trace

  -- The node behind the first two parts.
  abbrev recommended : Node
  recommended = record n {
    provider_file = some change.provider;
    recommend_file = some (recommendation change.recommended_profile);
    control = record n.control {
      daemon = record n.control.daemon { recommended_profile = change.recommended_profile };
    };
  }

  sync_config-steps :
      p1.outcome ≡ goes_on
      → p2.outcome ≡ goes_on
      → p3.outcome ≡ goes_on
      → sync_config env change p0 ≡ p5
  unfolding sync_config sync_debug
  sync_config-steps g1 g2 g3 = rw (and_then-goes_on p1 (sync_recommended env change) g1) (
      rw (and_then-goes_on p2 (sync_profiles env change) g2) (
        rw (and_then-goes_on p3 (sync_debug env change) g3)
          (and_then-goes_on (sync_debug env change p3) (sync_reapply env change) g3)))

  -- The node behind the first three parts.
  abbrev written : Node
  written = record recommended {
    custom = (profiles_sync env.files env.depends profiles change.recommended_profile n.custom).dir;
  }

  written_lem :
      env.profiles ≡ some profiles
      → n.recommend_file ≡ some (recommendation n.control.daemon.recommended_profile)
      → NodupKeys n.custom
      → IsClear (defined profiles) n.custom
      → (sync_config env change p0 ≡ p5)
        × (p3.outcome ≡ goes_on)
        × (p3.node ≡ written)
        × (p3.reload ≡ config_differs env change profiles n)
  written_lem e agrees u c =
      let (g1, n1, r1) = provider_lem env fine change p0 in
      let (g2, n2, r2) = recommended_lem env fine change p1 g1 (rw n1 agrees) in
      let at2 : p2.node ≡ recommended =
        n2
        ∙ ap
            (λ (m : Node). record m {
              recommend_file = some (recommendation change.recommended_profile);
              control = record m.control {
                daemon = record m.control.daemon {
                  recommended_profile = change.recommended_profile;
                };
              };
            })
            n1 in
      let (ok, _) =
        profiles_sync-synced env.files env.depends profiles change.recommended_profile n.custom
          fine.files u c in
      let (g3, n3, r3) = profiles_lem env fine change p2 profiles e (rw at2 ok) in
      let at3 : p3.node ≡ written =
        n3
        ∙ ap
            (λ (m : Node). record m {
              custom =
                  (profiles_sync env.files env.depends profiles m.control.daemon.recommended_profile
                    m.custom).dir;
            })
            at2 in
      (
        sync_config-steps g1 g2 g3,
        g3,
        at3,
        r3
            ∙ ap
                (λ (m : Node).
                  p2.reload
                  || (profiles_sync env.files env.depends profiles
                      m.control.daemon.recommended_profile m.custom).change)
                at2
            ∙ ap
                (λ (b : Bool).
                  b
                  || (profiles_sync env.files env.depends profiles change.recommended_profile
                      n.custom).change)
                (r2
                  ∙ ap
                      (λ (m : Node).
                        p1.reload
                        || not (m.control.daemon.recommended_profile == change.recommended_profile))
                      n1
                  ∙ ap
                      (λ (b : Bool).
                        b
                        || not (n.control.daemon.recommended_profile == change.recommended_profile))
                      r1),
      )

  sync_config-Configured :
      env.profiles ≡ some profiles
      → n.recommend_file ≡ some (recommendation n.control.daemon.recommended_profile)
      → NodupKeys n.custom
      → IsClear (defined profiles) n.custom
      → Configured (sync_config env change p0)
  unfolding sync_debug
  sync_config-Configured e agrees u c =
      let (steps, g3, at3, r3) = written_lem e agrees u c in
      let (ok, entries) =
        profiles_sync-synced env.files env.depends profiles change.recommended_profile n.custom
          fine.files u c in
      let p4 = sync_debug env change p3 in
      let asked =
        has_bit n.control.daemon.restart ctrl_restart
        || not (has_bit n.control.daemon.restart ctrl_debug == change.debug) in
      let bits4 : Bits p4.node.control.daemon.restart (has_bit n.control.daemon.restart ctrl_reload)
          asked change.debug =
        subst
          (λ (bits : ℕ).
            Bits p4.node.control.daemon.restart (has_bit bits ctrl_reload)
              (has_bit bits ctrl_restart || not (has_bit bits ctrl_debug == change.debug))
              change.debug)
          (ap (λ (m : Node). m.control.daemon.restart) at3) (debug_lem env fine change p3) in
      let (
        g5,
        r5,
        on,
        bits5,
        (same_provider, same_file, same_custom, same_command, same_trace, same_name),
      ) =
        reapply_lem env fine change p4 (has_bit n.control.daemon.restart ctrl_reload) asked
          change.debug bits4 g3 in
      rw steps record {
        goes = g5;
        provider = same_provider ∙ ap (λ (m : Node). m.provider_file) at3;
        cache = same_name ∙ ap (λ (m : Node). m.control.daemon.recommended_profile) at3;
        recommend = same_file ∙ ap (λ (m : Node). m.recommend_file) at3;
        custom = λ j. ap (lookup j) (same_custom ∙ ap (λ (m : Node). m.custom) at3) ∙ entries j;
        keys = rw (same_custom ∙ ap (λ (m : Node). m.custom) at3) (
            profiles_sync-NodupKeys env.files env.depends profiles change.recommended_profile
              n.custom fine.files u c);
        reapply = on;
        bits =
            subst
              (λ (o : Option Bytes).
                Bits p5.node.control.daemon.restart (has_bit n.control.daemon.restart ctrl_reload)
                  (asked || not (reapply_is env change o == change.reapply_sysctl)) change.debug)
              (ap (λ (m : Node). m.reapply) at3) bits5;
        reload = r5 ∙ r3;
        command = same_command ∙ ap (λ (m : Node). m.control.command) at3;
        trace = same_trace ∙ ap (λ (m : Node). m.control.trace) at3;
      }

  sync_config-main_file :
      env.profiles ≡ some profiles
      → n.recommend_file ≡ some (recommendation n.control.daemon.recommended_profile)
      → NodupKeys n.custom
      → IsClear (defined profiles) n.custom
      → reapply_is env change n.main_file ≡ reapply_is env change n.reapply
      → reapply_is env change (sync_config env change p0).node.main_file ≡ change.reapply_sysctl
  unfolding sync_debug
  sync_config-main_file e agrees u c saved =
      let (steps, g3, at3, r3) = written_lem e agrees u c in
      rw steps (sync_reapply-main_file env fine change (sync_debug env change p3) (rw at3 saved))

-- Reloading or restarting the daemon changes nothing of the files.
sync_daemon-settles :
    (env : Env) (change : Change) (n : Node) (reload : Bool)
    → Fine env
    → n.control.command ≢ no_process
    → let (n', synced, failed) = sync_daemon env change n reload in
      let bits = n.control.daemon.restart in
      (synced ≡ true)
      × (failed ≡ false)
      × Bits n'.control.daemon.restart false false (has_bit bits ctrl_debug)
      × (n'.control.daemon.recommended_profile ≡ n.control.daemon.recommended_profile)
      × (n'.control.trace
          ≡ n.control.trace
            ++ actions env.system n.control.command
                (has_bit bits ctrl_restart)
                (has_bit bits ctrl_reload || reload)
                (has_bit bits ctrl_debug))
unfolding sync_daemon
sync_daemon-settles env change n reload fine runs =
    let bits = n.control.daemon.restart in
    let bits' : ℕ = (if reload then set_bit bits ctrl_reload else bits) in
    let c = record n.control { daemon = record n.control.daemon { restart = bits' } } in
    let (ok, settled) = restart_or_reload-Settled env.system fine.obeys c runs in
    let at_reload =
      set_bit-reload bits (has_bit bits ctrl_reload) (has_bit bits ctrl_restart)
        (has_bit bits ctrl_debug) (Bits-refl bits) in
    let same_debug : has_bit bits' ctrl_debug ≡ has_bit bits ctrl_debug =
      ground (arith, at_reload) in
    let same_restart : has_bit bits' ctrl_restart ≡ has_bit bits ctrl_restart =
      ground (arith, at_reload) in
    let asked : has_bit bits' ctrl_reload ≡ (has_bit bits ctrl_reload || reload) =
      ground (arith, at_reload) in
    (
      ok,
      rw ok refl,
      rw (sym same_debug) settled.bits,
      settled.recommended,
      rw (sym same_debug, sym same_restart, sym asked) settled.trace,
    )

pub change_syncer_lem :
    (env : Env) (change : Change) (profiles : List TunedProfile) (n : Node)
    → Fine env
    → change.profile ≡ true
    → env.profiles ≡ some profiles
    → has_bit n.control.daemon.status sc_reloading ≡ false
    → n.control.command ≢ no_process
    → n.recommend_file ≡ some (recommendation n.control.daemon.recommended_profile)
    → NodupKeys n.custom
    → IsClear (defined profiles) n.custom
    → ((change_syncer env change n).1 ≡ true)
      × ((change_syncer env change n).2 ≡ false)
      × InStep env change profiles n (change_syncer env change n).0
unfolding change_syncer change_syncer_tuned sync_daemon
change_syncer_lem env change profiles n fine is_profile e idle runs agrees u c =
    let d = sync_config-Configured env fine change profiles n e agrees u c in
    let p = sync_config env change (p0 env fine change profiles n) in
    let (ok, no_error, (reload, restart, bit), name, trace) =
      sync_daemon-settles env change p.node p.reload fine (rw d.command runs) in
    let result : change_syncer env change n ≡ sync_daemon env change p.node p.reload =
      ground (arith, fine.reports, d.goes) in
    let (asked_reload, asked_restart, debug) = d.bits in
    rw result (
      ok,
      no_error,
      record {
        provider = d.provider;
        cache = name ∙ d.cache;
        recommend = d.recommend;
        custom = d.custom;
        keys = d.keys;
        reapply = d.reapply;
        debug = bit ∙ debug;
        no_reload = reload;
        no_restart = restart;
        trace = trace ∙ rw (d.trace, d.command, asked_reload, asked_restart, debug, d.reload) refl;
      },
    )

pub change_syncer-InStep :
    (env : Env) (change : Change) (profiles : List TunedProfile) (n : Node)
    → Fine env
    → change.profile ≡ true
    → env.profiles ≡ some profiles
    → has_bit n.control.daemon.status sc_reloading ≡ false
    → n.control.command ≢ no_process
    → n.recommend_file ≡ some (recommendation n.control.daemon.recommended_profile)
    → reapply_is env change n.main_file ≡ reapply_is env change n.reapply
    → NodupKeys n.custom
    → IsClear (defined profiles) n.custom
    → ((change_syncer env change n).1 ≡ true)
      × ((change_syncer env change n).2 ≡ false)
      × InStep env change profiles n (change_syncer env change n).0
      × (reapply_is env change (change_syncer env change n).0.main_file ≡ change.reapply_sysctl)
unfolding change_syncer change_syncer_tuned sync_daemon
change_syncer-InStep env change profiles n fine is_profile e idle runs agrees saved u c =
    let d = sync_config-Configured env fine change profiles n e agrees u c in
    let (ok, no_error, in_step) =
      change_syncer_lem env change profiles n fine is_profile e idle runs agrees u c in
    (
      ok,
      no_error,
      in_step,
      ground (
        arith,
        fine.reports,
        d.goes,
        sync_config-main_file env fine change profiles n e agrees u c saved,
      ),
    )
