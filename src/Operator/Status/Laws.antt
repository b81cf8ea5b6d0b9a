-- ===== src/Operator/Status/Laws.antt =====
-- pkg/operator/status.go: what the conditions that computeStatus returns say, and when an update is sent.
use cluster_node_tuning_oper.Base.{
  String, ℕ, Bool, true, false, Option, none, some, List, [], ◌∷◌, ◌||◌, ◌==◌, string_eq, nat_eq,
  if◌then◌else◌, ◌≡◌, ◌≢◌, refl, ◌∙◌, arith, ltb, ap, ◌<◌, Bool-cases, inl, inr,
}
use cluster_node_tuning_oper.Base.Dict.{Dict}
use cluster_node_tuning_oper.Operator.Types.{Err, Result, ok}
use cluster_node_tuning_oper.Conditions.{Condition, set_status_condition}
use cluster_node_tuning_oper.Conditions.Laws.{
  OnePerType, find_condition, set_status_condition-OnePerType,
}
use cluster_node_tuning_oper.Operator.Status.Profiles.{
  Profile, true_, false_, num_profiles_progressing_degraded, num_profiles_with_bootcmdline_conflict,
}
use cluster_node_tuning_oper.Operator.Status.Drafts.{
  DaemonSet, Drafts, drafted, generation_mismatch, stage_daemon_set, draft_profiles, draft_counts,
  draft_daemon_set, draft_available, watch_loop, is_rolling_out,
}
use cluster_node_tuning_oper.Operator.Status.Sync.{
  Clock, publish, compute_status, compute_managed, is_off, draft_off, ClusterOperator, fetched,
  sync_operator_status, send_status,
}
use cluster_node_tuning_oper.Operator.Status.Publish.{
  status_at, publish-status, IsTyped, status_at-set,
}

abbrev pub truth : Bool → String
truth b = if b then true_ else false_

-- The status that a reader finds under a type.
abbrev pub status_of : String → List Condition → Option String
status_of t conditions = elim (status_at t conditions) [
  | none ↦ none
  | some (status, _) ↦ some status
]

true_differs : (true_ == false_) ≡ false
unfolding string_eq
true_differs = refl

module _ (quote : String → String) (decimal : ℕ → String) (show_err : Err → String)
    (release : String) (conflict : Dict String Bool) (clock : Clock) where
  -- Where no type has two conditions, an operator that is removed or unmanaged is available, neither progressing nor degraded, with the
  -- management state as the reason of all three, whatever the cluster answers.
  pub compute_status-off :
      (daemon_set : Result DaemonSet) (profiles : Result (List Profile)) (management : String)
      (old : List Condition)
      → is_off management ≡ true
      → OnePerType old
      → let (new, (version, e)) =
          compute_status quote decimal show_err release daemon_set profiles conflict clock
            management old in
        (e ≡ none)
        × ((status_at "Available" new ≡ some (true_, management))
            × ((status_at "Progressing" new ≡ some (false_, management))
                × (status_at "Degraded" new ≡ some (false_, management))))
  unfolding compute_status draft_off
  compute_status-off daemon_set profiles management old off w =
      let (a, (p, d)) = publish-status clock (draft_off management) old (refl, (refl, refl)) w in
      rw off (refl, (a, (p, d)))

  watch_loop-absent :
      (now : ℕ) (cs : List Condition) (d : Condition)
      → find_condition "Available" cs ≡ none
      → watch_loop quote decimal show_err release now cs d ≡ d
  unfolding watch_loop find_condition
  watch_loop-absent now [] d h = refl
  watch_loop-absent now (c ∷ cs) d h = ground (arith, watch_loop-absent now cs d)

  -- Where the operator is available, the loop changes nothing.
  watch_loop-available :
      (now : ℕ) (cs : List Condition) (d : Condition) (status reason : String)
      → OnePerType cs
      → status_at "Available" cs ≡ some (status, reason)
      → (status == false_) ≡ false
      → watch_loop quote decimal show_err release now cs d ≡ d
  unfolding watch_loop find_condition
  watch_loop-available now [] d status reason w h n = refl
  watch_loop-available now (c ∷ cs) d status reason (a, w) h n =
      ground (arith, watch_loop-available now cs d status reason w, watch_loop-absent now cs d)

  ds_drafts : DaemonSet → List Profile → Drafts
  ds_drafts ds ps =
      draft_counts quote decimal show_err release conflict ps
        (draft_daemon_set quote decimal show_err release ds).0

  stage-fetched :
      (ds : DaemonSet) (old : List Condition)
      → ds.observed_generation ≡ ds.generation
      → stage_daemon_set quote decimal show_err release (ok ds) old
        ≡ drafted
            (draft_daemon_set quote decimal show_err release ds).0
            (if is_rolling_out ds then "" else release)
  unfolding stage_daemon_set draft_daemon_set
  stage-fetched ds old fresh = elim (Bool-cases (ds.observed_generation == ds.generation)) [
    | inl e ↦ rw e
    | inr e ↦ absurd (ground (arith, e, fresh))
  ]

  compute_status-fetched :
      (ds : DaemonSet) (ps : List Profile) (management : String) (old : List Condition)
      → is_off management ≡ false
      → ds.observed_generation ≡ ds.generation
      → compute_status quote decimal show_err release (ok ds) (ok ps) conflict clock management old
        ≡ (let d = ds_drafts ds ps in
            let set = set_status_condition clock.at_first d.available old in
            (
              publish clock
                  (record d {
                    degraded =
                        watch_loop quote decimal show_err release clock.at_watch set d.degraded;
                  })
                  set,
              ((if is_rolling_out ds then "" else release), none),
            ))
  unfolding compute_status compute_managed draft_profiles ds_drafts
  compute_status-fetched ds ps management old off fresh =
      rw (off, compute_status) (rw (stage-fetched ds old fresh))

  ds_drafts-available :
      (ds : DaemonSet) (ps : List Profile)
      → (ds_drafts ds ps).available.status ≡ truth (ltb 0 ds.number_available)
  unfolding ds_drafts draft_counts draft_daemon_set draft_available
  ds_drafts-available ds ps = ground arith

  ds_drafts-progressing :
      (ds : DaemonSet) (ps : List Profile)
      → (ds_drafts ds ps).progressing.status
        ≡ truth (is_rolling_out ds || ltb 0 (num_profiles_progressing_degraded ps).0)
  unfolding ds_drafts draft_counts draft_daemon_set
  ds_drafts-progressing ds ps = ground arith

  ds_drafts-degraded :
      (ds : DaemonSet) (ps : List Profile)
      → (ds_drafts ds ps).degraded.status
        ≡ truth (ltb 0 (num_profiles_with_bootcmdline_conflict conflict ps))
  unfolding ds_drafts draft_counts draft_daemon_set
  ds_drafts-degraded ds ps = ground arith

  ds_drafts-IsTyped : (ds : DaemonSet) (ps : List Profile) → IsTyped (ds_drafts ds ps)
  unfolding ds_drafts draft_counts draft_daemon_set draft_available
  ds_drafts-IsTyped ds ps = (ground arith, (ground arith, ground arith))

  status_of-status_at :
      (t : String) (cs : List Condition) (x : String × String)
      → status_at t cs ≡ some x
      → status_of t cs ≡ some x.0
  status_of-status_at t cs x h = rw (h, status_of)

  watch_loop-typ :
      (now : ℕ) (cs : List Condition) (d : Condition)
      → d.typ ≡ "Degraded"
      → (watch_loop quote decimal show_err release now cs d).typ ≡ "Degraded"
  unfolding watch_loop
  watch_loop-typ now [] d h = h
  watch_loop-typ now (c ∷ cs) d h = watch_loop-typ now cs _ (ground (arith, h))

  -- Where the operator is managed, the DaemonSet's status is up to date, the Profiles are listed and no
  -- type has two conditions, the operator is available exactly when a pod of the DaemonSet is, it is
  -- progressing exactly when the DaemonSet is rolling out or a Profile counts as progressing, and the operand's version is reported exactly when the DaemonSet
  -- is not rolling out.
  pub compute_status-managed :
      (ds : DaemonSet) (ps : List Profile) (management : String) (old : List Condition)
      → is_off management ≡ false
      → ds.observed_generation ≡ ds.generation
      → OnePerType old
      → let (new, (version, e)) =
          compute_status quote decimal show_err release
            (ok ds)
            (ok ps)
            conflict
            clock
            management
            old in
        (e ≡ none)
        × ((version ≡ (if is_rolling_out ds then "" else release))
            × ((status_of "Available" new ≡ some (truth (ltb 0 ds.number_available)))
                × (status_of "Progressing" new
                    ≡ some (
                        truth
                          (is_rolling_out ds || ltb 0 (num_profiles_progressing_degraded ps).0)))))
  compute_status-managed ds ps management old off fresh w =
      let d = ds_drafts ds ps in
      let (ta, (tp, td)) = ds_drafts-IsTyped ds ps in
      let set = set_status_condition clock.at_first d.available old in
      let d' = record d {
        degraded = watch_loop quote decimal show_err release clock.at_watch set d.degraded;
      } in
      let (a, (p, _)) =
        publish-status clock d' set (ta, (tp, watch_loop-typ clock.at_watch set d.degraded td))
          (set_status_condition-OnePerType clock.at_first d.available old w) in
      rw (compute_status-fetched ds ps management old off fresh) (
        refl,
        (
          refl,
          (
            status_of-status_at "Available" _ _ a ∙ ap some (ds_drafts-available ds ps),
            status_of-status_at "Progressing" _ _ p ∙ ap some (ds_drafts-progressing ds ps),
          ),
        ),
      )

  -- Where moreover a pod of the DaemonSet is available, the operator is degraded exactly when a
  -- Profile is in conflict.
  pub compute_status-degraded :
      (ds : DaemonSet) (ps : List Profile) (management : String) (old : List Condition)
      → is_off management ≡ false
      → ds.observed_generation ≡ ds.generation
      → OnePerType old
      → 0 < ds.number_available
      → status_of "Degraded"
          (compute_status quote decimal show_err release
            (ok ds)
            (ok ps)
            conflict
            clock
            management
            old).0
        ≡ some (truth (ltb 0 (num_profiles_with_bootcmdline_conflict conflict ps)))
  compute_status-degraded ds ps management old off fresh w up =
      let d = ds_drafts ds ps in
      let (ta, (tp, td)) = ds_drafts-IsTyped ds ps in
      let set = set_status_condition clock.at_first d.available old in
      let w1 = set_status_condition-OnePerType clock.at_first d.available old w in
      let d' = record d {
        degraded = watch_loop quote decimal show_err release clock.at_watch set d.degraded;
      } in
      let (_, (_, g)) =
        publish-status clock d' set (ta, (tp, watch_loop-typ clock.at_watch set d.degraded td))
          w1 in
      let is_up : d.available.status ≡ true_ = ds_drafts-available ds ps ∙ ground (arith, up) in
      let shut =
        watch_loop-available clock.at_watch set d.degraded d.available.status d.available.reason w1
          (status_at-set clock.at_first d.available old "Available" w ∙ ground (arith, ta))
          (ap (λ x. x == false_) is_up ∙ true_differs) in
      rw (compute_status-fetched ds ps management old off fresh) (
        status_of-status_at "Degraded" _ _ g
        ∙ ap (λ c. some c.status) shut
        ∙ ap some (ds_drafts-degraded ds ps))

  -- While the operator is managed and the DaemonSet's status is stale, the conditions stay, and
  -- neither an update is sent nor an error returned.
  pub sync_operator_status-stale :
      (set_operand_version : List (String × String) → String → String → List (String × String))
      (update : ClusterOperator → Option Err) (in_hyper_shift : Bool) (ds : DaemonSet)
      (profiles : Result (List Profile)) (management : String) (co : ClusterOperator)
      → is_off management ≡ false
      → ds.observed_generation ≢ ds.generation
      → let compute =
          compute_status quote decimal show_err release
            (ok ds)
            profiles
            conflict
            clock
            management in
        (compute co.conditions ≡ (co.conditions, ("", some generation_mismatch)))
        × (sync_operator_status set_operand_version update release in_hyper_shift
              (fetched co)
              compute
            ≡ (none, none))
  unfolding sync_operator_status send_status compute_status stage_daemon_set
  sync_operator_status-stale set_operand_version update in_hyper_shift ds profiles management co off
        stale =
      let differ : (ds.observed_generation == ds.generation) ≡ false = ground (arith, stale) in
      (rw (off, differ, compute_status), rw (off, differ, sync_operator_status))
