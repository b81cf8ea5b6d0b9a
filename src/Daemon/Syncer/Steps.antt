-- ===== src/Daemon/Syncer/Steps.antt =====
-- pkg/tuned/controller.go: each part of changeSyncerTuneD, where the calls of other code succeed.
use cluster_node_tuning_oper.Daemon.Extract.Provider.{provider_sync}
use cluster_node_tuning_oper.Daemon.Control.Bits.{Bits}
use cluster_node_tuning_oper.Daemon.Syncer.{text_of}
use cluster_node_tuning_oper.Base.{
  Bool, not, ◌||◌, Option, ◌∷◌, ◌++◌, nat_eq, list_eq, bool_eq, ◌≡◌, arith, true, false, Bool-cases,
  inl, inr, some, none, utf8, List, ◌==◌, [],
}
use cluster_node_tuning_oper.Daemon.Builtin.{Bytes}
use cluster_node_tuning_oper.Daemon.Status.{has_bit}
use cluster_node_tuning_oper.Daemon.Control.{ctrl_reload, ctrl_restart, ctrl_debug, set_bit}
use cluster_node_tuning_oper.Daemon.Control.Bits.{
  Bits-refl, set_bit-restart, set_bit-debug, clear_bit-debug,
}
use cluster_node_tuning_oper.Daemon.Control.Process.{Obeys}
use cluster_node_tuning_oper.Daemon.Extract.{profiles_sync}
use cluster_node_tuning_oper.Daemon.Extract.Provider.{Output, provider_sync-roundtrip}
use cluster_node_tuning_oper.Daemon.Extract.Written.{Succeeds}
use cluster_node_tuning_oper.Daemon.Syncer.{
  Env, Change, Node, Progress, goes_on, change_provider, sync_recommended, sync_profiles,
  sync_reapply, reapply_is, debug_bits, tuned_recommend_file_write, ini_cfg_set_key, TunedProfile,
}
use cluster_node_tuning_oper.Daemon.Includes.Reach.{eq_of_equal}

-- The operations on a file succeed.
pub record Works (out : Output) : Type 0 where
  pub readable : out.readable ≡ true
  pub creates : out.create ≡ true
  pub writes : (text : Bytes) → out.write text ≡ (text, true)

-- No call of other code fails, and `1` and `0` are read as Booleans.
pub record Fine (env : Env) : Type 0 where
  pub obeys : Obeys env.system
  pub provider : Works env.provider
  pub recommend_dir : env.recommend_dir ≡ true
  pub recommend : Works env.recommend
  pub files : Succeeds env.files
  pub reports : env.reports ≡ true
  pub saves : env.saves ≡ true
  pub reads_one : env.must_bool (utf8 "1") ≡ true
  pub reads_zero : env.must_bool (utf8 "0") ≡ false

-- The text of the recommendation of a profile.
abbrev pub recommendation : Bytes → Bytes
recommendation name = b'[' ∷ (name ++ b']' ∷ 10 ∷ [])

module _ (env : Env) (fine : Fine env) (change : Change) (p : Progress) where
  pub provider_lem :
      ((change_provider env change p).outcome ≡ goes_on)
      × ((change_provider env change p).node
          ≡ record p.node { provider_file = some change.provider })
      × ((change_provider env change p).reload
          ≡ (p.reload || not (change.provider == text_of p.node.provider_file)))
  unfolding change_provider
  provider_lem =
      let w = fine.provider in
      let (ok, file, _) =
        provider_sync-roundtrip env.provider change.provider p.node.provider_file w.readable
          w.creates w.writes in
      (
        ground (arith, ok),
        ground (arith, file),
        ground (arith, ok, provider_change p.node.provider_file),
      )
    where
      provider_change :
          (o : Option Bytes)
          → (provider_sync env.provider change.provider o).change
            ≡ not (change.provider == text_of o)
      provider_change none = unfold provider_sync in ground arith
      provider_change (some t) = unfold provider_sync in ground (arith, fine.provider.readable)

  -- The node with the profile recommended, in the file and in the cache.
  abbrev pub recommending : Node
  recommending = record p.node {
    recommend_file = some (recommendation change.recommended_profile);
    control = record p.node.control {
      daemon = record p.node.control.daemon { recommended_profile = change.recommended_profile };
    };
  }

  pub recommended_lem :
      p.outcome ≡ goes_on
      → p.node.recommend_file ≡ some (recommendation p.node.control.daemon.recommended_profile)
      → ((sync_recommended env change p).outcome ≡ goes_on)
        × ((sync_recommended env change p).node ≡ recommending)
        × ((sync_recommended env change p).reload ≡ (
            p.reload
            || not (p.node.control.daemon.recommended_profile == change.recommended_profile)))
  unfolding sync_recommended tuned_recommend_file_write
  recommended_lem e agrees =
      let w = fine.recommend in
      let name = p.node.control.daemon.recommended_profile in
      let text = recommendation change.recommended_profile in
      elim (Bool-cases (name == change.recommended_profile)) [
        | inl same ↦
            let q = eq_of_equal name change.recommended_profile same in
            (ground (arith, fine.reports), ground arith, ground arith)
        | inr other ↦ (
          ground (arith, fine.recommend_dir, w.creates, w.writes text),
          ground (arith, fine.recommend_dir, w.creates, w.writes text),
          ground (arith, fine.recommend_dir, w.creates, w.writes text),
        )
      ]

  pub profiles_lem :
      (profiles : List TunedProfile)
      → env.profiles ≡ some profiles
      → let synced =
          profiles_sync env.files env.depends profiles p.node.control.daemon.recommended_profile
            p.node.custom in
        synced.failed ≡ false
        → ((sync_profiles env change p).outcome ≡ goes_on)
          × ((sync_profiles env change p).node ≡ record p.node { custom = synced.dir })
          × ((sync_profiles env change p).reload ≡ (p.reload || synced.change))
  unfolding sync_profiles
  profiles_lem profiles e f = (ground arith, ground arith, ground arith)

  -- What the part for the debug mode does to the bits.
  pub debug_lem :
      let bits = p.node.control.daemon.restart in
      Bits
        (debug_bits env change bits)
        (has_bit bits ctrl_reload)
        (has_bit bits ctrl_restart || not (has_bit bits ctrl_debug == change.debug))
        change.debug
  unfolding debug_bits
  debug_lem =
      let bits = p.node.control.daemon.restart in
      let at_restart =
        set_bit-restart bits (has_bit bits ctrl_reload) (has_bit bits ctrl_restart)
          (has_bit bits ctrl_debug) (Bits-refl bits) in
      let at_debug =
        set_bit-debug (set_bit bits ctrl_restart) (has_bit bits ctrl_reload) true
          (has_bit bits ctrl_debug) at_restart in
      let at_clear =
        clear_bit-debug (set_bit bits ctrl_restart) (has_bit bits ctrl_reload) true
          (has_bit bits ctrl_debug) at_restart in
      (ground arith, ground arith, ground arith)

  -- What the part for reapply_sysctl leaves as it was.
  abbrev pub SameButOption : Node → Node → Type 0
  SameButOption n n' =
      (n'.provider_file ≡ n.provider_file)
      × (n'.recommend_file ≡ n.recommend_file)
      × (n'.custom ≡ n.custom)
      × (n'.control.command ≡ n.control.command)
      × (n'.control.trace ≡ n.control.trace)
      × (n'.control.daemon.recommended_profile ≡ n.control.daemon.recommended_profile)

  -- The option is as asked for, and a restart is asked for if it was not.
  pub reapply_lem :
      (reload restart debug : Bool)
      → Bits p.node.control.daemon.restart reload restart debug
      → p.outcome ≡ goes_on
      → let q = sync_reapply env change p in
        (q.outcome ≡ goes_on)
        × (q.reload ≡ p.reload)
        × (reapply_is env change q.node.reapply ≡ change.reapply_sysctl)
        × Bits q.node.control.daemon.restart reload
            (restart || not (reapply_is env change p.node.reapply == change.reapply_sysctl))
            debug
        × SameButOption p.node q.node
  unfolding sync_reapply reapply_is ini_cfg_set_key
  reapply_lem reload restart debug b e =
      let set = set_bit-restart p.node.control.daemon.restart reload restart debug b in
      ground (arith, fine.saves, fine.reads_one, fine.reads_zero)

  pub sync_reapply-main_file :
      reapply_is env change p.node.main_file ≡ reapply_is env change p.node.reapply
      → reapply_is env change (sync_reapply env change p).node.main_file ≡ change.reapply_sysctl
  unfolding sync_reapply reapply_is ini_cfg_set_key
  sync_reapply-main_file agrees = ground (arith, fine.saves, fine.reads_one, fine.reads_zero)
