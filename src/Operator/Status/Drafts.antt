-- ===== src/Operator/Status/Drafts.antt =====
-- pkg/operator/status.go: computeStatus drafts three conditions, from the TuneD DaemonSet and from
-- the Profiles, before it sets them.
use cluster_node_tuning_oper.Base.{
  String, ◌<>◌, ℕ, ◌-◌, Bool, not, List, [], ◌∷◌, ◌&&◌, ◌||◌, ◌==◌, string_eq, nat_eq,
  if◌then◌else◌, ltb, length,
}
use cluster_node_tuning_oper.Base.Dict.{Dict}
use cluster_node_tuning_oper.Operator.Types.{Err, not_found, Result, ok, err}
use cluster_node_tuning_oper.Conditions.{Condition}
use cluster_node_tuning_oper.Operator.Status.Profiles.{
  Profile, true_, false_, num_profiles_progressing_degraded, num_profiles_with_bootcmdline_conflict,
}

abbrev pub unknown : String
unknown = "Unknown"

abbrev pub max_tuned_unavailable : ℕ
max_tuned_unavailable = 7200

-- The name in assets/tuned/manifests/ds-tuned.yaml.
abbrev pub ds_name : String
ds_name = "tuned"

-- A DaemonSet, with the fields that are read. The environment is that of its first container.
pub record DaemonSet : Type 0 where
  pub generation : ℕ
  pub observed_generation : ℕ
  pub env : List (String × String)
  pub number_available : ℕ
  pub number_ready : ℕ
  pub updated : ℕ  -- UpdatedNumberScheduled
  pub current : ℕ  -- CurrentNumberScheduled
  pub desired : ℕ  -- DesiredNumberScheduled

unfoldable pub get_daemon_set_release_version : List (String × String) → String
get_daemon_set_release_version [] = ""
get_daemon_set_release_version ((name, value) ∷ rest) =
    let later = get_daemon_set_release_version rest in
    if name == "RELEASE_VERSION" then value else later

-- The three condition variables.
pub record Drafts : Type 0 where
  pub available : Condition
  pub progressing : Condition
  pub degraded : Condition

abbrev pub condition : String → String → String → String → Condition
condition typ status reason message = record {
  typ = typ;
  status = status;
  reason = reason;
  message = message;
  last_transition_time = 0;
}

abbrev pub available : String → String → String → Condition
available = condition "Available"

abbrev pub progressing : String → String → String → Condition
progressing = condition "Progressing"

abbrev pub degraded : String → String → String → Condition
degraded = condition "Degraded"

-- copyAvailableCondition
unfoldable pub copy_available : Condition → Drafts
copy_available a = record {
  available = a;
  progressing = progressing a.status a.reason a.message;
  degraded = degraded a.status a.reason a.message;
}

-- What the operator does about the DaemonSet differs from what is there.
abbrev pub is_rolling_out : DaemonSet → Bool
is_rolling_out ds =
    not (ds.desired == ds.updated) || (not (ds.current == ds.number_ready) || (ds.desired == 0))

-- The early returns of computeStatus.
pub data StatusErr : Type 0 where
  generation_mismatch : StatusErr
  daemon_set_error : Err → StatusErr

pub data Stage : Type 0 where
  returned : StatusErr → Stage
  drafted : Drafts → String → Stage

module _ (quote : String → String) (decimal : ℕ → String) (show_err : Err → String)
    (release : String) where
  -- There is no DaemonSet and no condition yet.
  unfoldable pub draft_fresh : Drafts
  draft_fresh = record {
    available =
        available false_ "TunedUnavailable" ("DaemonSet " <> (quote ds_name <> " unavailable"));
    progressing = progressing true_ "Reconciling" ("Working towards " <> quote release);
    degraded = degraded false_ "Reconciling" ("Working towards " <> quote release);
  }

  unfoldable pub draft_available : DaemonSet → Condition
  unfolding get_daemon_set_release_version
  draft_available ds =
      if ltb 0 ds.number_available
      then available true_ "AsExpected" (
          if ltb 0 ds.updated && (get_daemon_set_release_version ds.env == release)
          then "Cluster has deployed "
            <> (decimal ds.updated
                <> ("/" <> (decimal ds.current <> (" " <> (quote release <> " operands")))))
          else "")
      else available false_ "TunedUnavailable"
          ("DaemonSet " <> (quote ds_name <> " has no available Pod(s)"))

  -- The conditions of a DaemonSet whose status is up to date, and the operand's version to report.
  unfoldable pub draft_daemon_set : DaemonSet → Drafts × String
  unfolding draft_available
  draft_daemon_set ds = (
    record {
      available = draft_available ds;
      progressing =
          if is_rolling_out ds
          then progressing true_ "Reconciling" ("Working towards " <> quote release)
          else progressing false_ "AsExpected" ("Cluster version is " <> quote release);
      degraded = degraded false_ "AsExpected" ("DaemonSet " <> (quote ds_name <> " available"));
    },
    (if is_rolling_out ds then "" else release),
  )

  -- The answer for the DaemonSet.
  unfoldable pub stage_daemon_set : Result DaemonSet → List Condition → Stage
  unfolding draft_fresh draft_daemon_set copy_available
  stage_daemon_set (err not_found) [] = drafted draft_fresh ""
  stage_daemon_set (err not_found) (c ∷ conditions) = returned (daemon_set_error not_found)
  stage_daemon_set (err e) conditions =
      drafted
        (copy_available (
          available unknown "Unknown"
            ("Unable to fetch DaemonSet " <> (quote ds_name <> (": " <> show_err e)))))
        ""
  stage_daemon_set (ok ds) conditions =
      if not (ds.observed_generation == ds.generation)
      then returned generation_mismatch
      else (let (drafts, version) = draft_daemon_set ds in drafted drafts version)

  abbrev pub n_of : ℕ → List Profile → String
  n_of n ps = decimal n <> ("/" <> decimal (length ps))

  -- The counts of the Profiles overwrite the drafts.
  unfoldable pub draft_counts : Dict String Bool → List Profile → Drafts → Drafts
  unfolding num_profiles_progressing_degraded num_profiles_with_bootcmdline_conflict
  draft_counts conflict ps d =
      let (n_progressing, n_degraded) = num_profiles_progressing_degraded ps in
      let n_conflict = num_profiles_with_bootcmdline_conflict conflict ps in
      record {
        available =
            if ltb 0 n_degraded
            then available d.available.status "ProfileDegraded"
                (n_of n_degraded ps <> " Profiles failed to be applied")
            else d.available;
        progressing =
            if ltb 0 n_progressing
            then progressing true_ "ProfileProgressing"
                ("Waiting for " <> (n_of n_progressing ps <> " Profiles to be applied"))
            else d.progressing;
        degraded =
            if ltb 0 n_conflict
            then degraded true_ "ProfileConflict"
                (n_of n_conflict ps <> " Profiles with bootcmdline conflict")
            else d.degraded;
      }

  -- The answer for the Profiles; the slice is nil after an error.
  unfoldable pub draft_profiles : Dict String Bool → Result (List Profile) → Drafts → Drafts
  unfolding draft_counts copy_available
  draft_profiles conflict (ok ps) d = draft_counts conflict ps d
  draft_profiles conflict (err e) d = draft_counts conflict [] (
      copy_available
        (available unknown "Unknown" ("Unable to fetch Tuned Profiles: " <> show_err e)))

  -- The loop for an operator that is unavailable for too long. Where the time of the last transition
  -- lies ahead, the difference is negative in Go and 0 here, and above the bound in neither.
  unfoldable pub watch_loop : ℕ → List Condition → Condition → Condition
  watch_loop now [] d = d
  watch_loop now (c ∷ cs) d = watch_loop now cs (
      if (c.typ == "Available")
        && ((c.status == false_) && ltb max_tuned_unavailable (now - c.last_transition_time))
      then degraded true_ "TunedUnavailable" (
          "DaemonSet "
          <> (quote ds_name
              <> (" unavailable for more than " <> (decimal max_tuned_unavailable <> " seconds"))))
      else d)
