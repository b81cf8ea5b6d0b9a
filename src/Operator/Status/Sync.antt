-- ===== src/Operator/Status/Sync.antt =====
-- pkg/operator/status.go: computeStatus, and syncOperatorStatus, which sends the status it computes.
use cluster_node_tuning_oper.Base.{
  String, ℕ, Bool, false, not, Option, none, some, List, [], ◌∷◌, ◌&&◌, ◌||◌, ◌==◌, string_eq,
  if◌then◌else◌,
}
use cluster_node_tuning_oper.Base.Dict.{Dict}
use cluster_node_tuning_oper.Operator.Types.{Err, not_found, Result, ok, err}
use cluster_node_tuning_oper.Conditions.{Condition, set_status_condition, conditions_equal}
use cluster_node_tuning_oper.Operator.Status.Profiles.{Profile, true_, false_}
use cluster_node_tuning_oper.Operator.Status.Drafts.{
  DaemonSet, Drafts, returned, drafted, StatusErr, generation_mismatch, daemon_set_error, available,
  progressing, degraded, copy_available, stage_daemon_set, draft_profiles, watch_loop,
}

-- The readings of the clock, at the five places that take one.
pub record Clock : Type 0 where
  pub at_first : ℕ
  pub at_watch : ℕ
  pub at_available : ℕ
  pub at_progressing : ℕ
  pub at_degraded : ℕ

abbrev pub is_off : String → Bool
is_off management = (management == "Removed") || (management == "Unmanaged")

-- The conditions of an operator that is switched off.
unfoldable pub draft_off : String → Drafts
unfolding copy_available
draft_off management =
    let message =
      if management == "Unmanaged"
      then "The operator configuration is set to unmanaged mode"
      else "The operator is removed" in
    record {
      available = available true_ management message;
      progressing = progressing false_ management message;
      degraded = degraded false_ management message;
    }

-- The three last calls of SetStatusCondition.
unfoldable pub publish : Clock → Drafts → List Condition → List Condition
publish clock d conditions = set_status_condition clock.at_degraded d.degraded (
    set_status_condition clock.at_progressing d.progressing
      (set_status_condition clock.at_available d.available conditions))

-- What computeStatus returns: the conditions, the operand's version and an error.
abbrev pub Computed : Type 0
Computed = List Condition × (String × Option StatusErr)

module _ (quote : String → String) (decimal : ℕ → String) (show_err : Err → String)
    (release : String) (daemon_set : Result DaemonSet) (profiles : Result (List Profile))
    (conflict : Dict String Bool) (clock : Clock) where
  -- The default branch, behind the answer for the DaemonSet.
  unfoldable pub compute_managed : Drafts → String → List Condition → Computed
  unfolding draft_profiles watch_loop publish
  compute_managed drafts version conditions =
      let d = draft_profiles quote decimal show_err release conflict profiles drafts in
      let set = set_status_condition clock.at_first d.available conditions in
      (
        publish clock
            (record d {
              degraded = watch_loop quote decimal show_err release clock.at_watch set d.degraded;
            })
            set,
        (version, none),
      )

  -- computeStatus, for a management state of the default resource.
  unfoldable pub compute_status : String → List Condition → Computed
  unfolding stage_daemon_set compute_managed draft_off publish
  compute_status management conditions =
      if is_off management
      then (publish clock (draft_off management) conditions, ("", none))
      else elim (stage_daemon_set quote decimal show_err release daemon_set conditions) [
        | returned e ↦ (conditions, ("", some e))
        | drafted drafts version ↦ compute_managed drafts version conditions
      ]

-- conditionTrue
unfoldable pub condition_true : List Condition → String → Bool
condition_true [] t = false
condition_true (c ∷ cs) t =
    let rest = condition_true cs t in if c.typ == t then c.status == true_ else rest

pub record ObjectReference : Type 0 where
  pub group : String
  pub resource : String
  pub name : String
  pub namespace : String

abbrev pub watch_namespace : String
watch_namespace = "openshift-cluster-node-tuning-operator"

abbrev pub reference : String → String → String → String → ObjectReference
reference group resource name namespace = record {
  group = group;
  resource = resource;
  name = name;
  namespace = namespace;
}

unfoldable pub get_related_objects : Bool → List ObjectReference
get_related_objects in_hyper_shift =
    reference "" "namespaces" watch_namespace ""
    ∷ reference "tuned.openshift.io" "profiles" "" watch_namespace
    ∷ reference "tuned.openshift.io" "tuneds" "" watch_namespace
    ∷ reference "apps" "daemonsets" "tuned" watch_namespace
    ∷ (if not in_hyper_shift
        then reference "performance.openshift.io" "performanceprofiles" "" "" ∷ []
        else [])

pub record ClusterOperator : Type 0 where
  pub name : String
  pub conditions : List Condition
  pub versions : List (String × String)
  pub related_objects : List ObjectReference

pub data SyncErr : Type 0 where
  get_failed : Err → SyncErr
  create_failed : Err → SyncErr
  compute_failed : Err → SyncErr
  update_failed : Err → SyncErr

-- The result of getOrCreateOperatorStatus, for what Get and Create answer.
pub data Fetched : Type 0 where
  fetched : ClusterOperator → Fetched
  not_fetched : SyncErr → Fetched

unfoldable pub get_or_create_operator_status :
    Result ClusterOperator → (ClusterOperator → Result ClusterOperator) → Fetched
get_or_create_operator_status (ok co) create = fetched co
get_or_create_operator_status (err not_found) create =
    elim (create
      (record { name = "node-tuning"; conditions = []; versions = []; related_objects = [] })) [
        | err e ↦ not_fetched (create_failed e)
        | ok co ↦ fetched co
      ]
get_or_create_operator_status (err e) create = not_fetched (get_failed e)

-- The object that is sent to UpdateStatus, if any, and the error that is returned.
abbrev pub Synced : Type 0
Synced = Option ClusterOperator × Option SyncErr

-- The steps of syncOperatorStatus behind computeStatus. SetOperandVersion of library-go, and the answer
-- of the API server to an update, are parameters.
module _ (set_operand_version : List (String × String) → String → String → List (String × String))
    (update : ClusterOperator → Option Err) (release : String) (in_hyper_shift : Bool) where
  unfoldable pub send_status : ClusterOperator → Computed → Synced
  unfolding condition_true get_related_objects
  send_status co (conditions, (version, some generation_mismatch)) = (none, none)
  send_status co (conditions, (version, some (daemon_set_error e))) =
      (none, some (compute_failed e))
  send_status co (conditions, (version, none)) =
      let versions =
        if version == ""
        then co.versions
        else set_operand_version co.versions "openshift-tuned" version in
      let all_versions =
        if not (release == "") && condition_true conditions "Available"
        then set_operand_version versions "operator" release
        else versions in
      let new = record co {
        conditions = conditions;
        versions = all_versions;
        related_objects = get_related_objects in_hyper_shift;
      } in
      if conditions_equal co.conditions conditions
      then (none, none)
      else (some new, elim (update new) [ none ↦ none | some e ↦ some (update_failed e) ])

  -- syncOperatorStatus, for what computeStatus makes of the conditions.
  unfoldable pub sync_operator_status : Fetched → (List Condition → Computed) → Synced
  unfolding send_status
  sync_operator_status (not_fetched e) compute = (none, some e)
  sync_operator_status (fetched co) compute = send_status co (compute co.conditions)
