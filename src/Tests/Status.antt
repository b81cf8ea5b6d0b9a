-- ===== src/Tests/Status.antt =====
-- pkg/operator/status.go, pkg/clusteroperator/status.go and pkg/tuned/status.go at concrete inputs.
use cluster_node_tuning_oper.Base.{
  String, ◌<>◌, ℕ, Bool, true, false, not, none, some, List, [], ◌∷◌, ◌≡◌, ◌≢◌, refl, ◌&&◌, ◌||◌,
  ◌==◌, string_eq, nat_eq, arith, if◌then◌else◌, ltb,
}
use cluster_node_tuning_oper.Base.Dict.{Dict}
use cluster_node_tuning_oper.Operator.Types.{Err, ok}
use cluster_node_tuning_oper.Conditions.{Condition}
use cluster_node_tuning_oper.Conditions.Laws.{OnePerType, find_condition}
use cluster_node_tuning_oper.Operator.Status.Profiles.{
  Profile, profile_degraded, profile_applied, num_profiles_progressing_degraded,
}
use cluster_node_tuning_oper.Operator.Status.Drafts.{DaemonSet, is_rolling_out}
use cluster_node_tuning_oper.Operator.Status.Sync.{Clock, compute_status, is_off, ClusterOperator}
use cluster_node_tuning_oper.Operator.Status.Laws.{truth, status_of, compute_status-managed}
use cluster_node_tuning_oper.Daemon.Status.{
  has_bit, sc_error, sc_sysctl_override, sc_applied, sc_unknown, compute_status_conditions,
}
use cluster_node_tuning_oper.Daemon.Status.Laws.{compute_status_conditions-read}

abbrev condition : String → String → Condition
condition typ status = record {
  typ = typ;
  status = status;
  reason = "r";
  message = "";
  last_transition_time = 1;
}

abbrev old : List Condition
old = condition "Available" "True" ∷ condition "Degraded" "False" ∷ []

old-OnePerType : OnePerType old
unfolding find_condition string_eq
old-OnePerType = (refl, (refl, tt))

abbrev new : Condition
new = condition "Degraded" "True"

abbrev profile : String → List Condition → Profile
profile name conditions = record {
  name = name;
  spec_profile = "p";
  status_profile = "p";
  conditions = conditions;
}

abbrev profiles : List Profile
profiles =
    profile "n1" (condition "Applied" "True" ∷ [])
    ∷ profile "n2" (condition "Degraded" "True" ∷ [])
    ∷ []

compute_status_conditions-read_example :
    let p = profile "n1" old in
    let q = record p { conditions = compute_status_conditions 7 8 5 "stderr" p.conditions } in
    let known = not (has_bit 5 sc_unknown) in
    (profile_degraded (some q) ≡ (known && (has_bit 5 sc_error || has_bit 5 sc_sysctl_override)))
    × (profile_applied (some q)
        ≡ (known && ((p.spec_profile == p.status_profile) && has_bit 5 sc_applied)))
compute_status_conditions-read_example =
    compute_status_conditions-read 7 8 5 "stderr" (profile "n1" old) old-OnePerType

abbrev quote : String → String
quote s = "'" <> (s <> "'")

abbrev decimal : ℕ → String
decimal n = "n"

abbrev show_err : Err → String
show_err e = "error"

abbrev release : String
release = "4.17"

abbrev conflict : Dict String Bool
conflict = ("n1", true) ∷ []

abbrev clock : Clock
clock = record {
  at_first = 10;
  at_watch = 11;
  at_available = 12;
  at_progressing = 13;
  at_degraded = 14;
}

abbrev daemon_set : DaemonSet
daemon_set = record {
  generation = 3;
  observed_generation = 3;
  env = ("RELEASE_VERSION", release) ∷ [];
  number_available = 2;
  number_ready = 2;
  updated = 2;
  current = 2;
  desired = 2;
}

abbrev stale : DaemonSet
stale = record daemon_set { observed_generation = 2 }

removed-is_off : is_off "Removed" ≡ true
unfolding string_eq
removed-is_off = refl

managed-is_off : is_off "Managed" ≡ false
unfolding string_eq
managed-is_off = refl

compute_status-managed_example :
    let (new, (version, e)) =
      compute_status quote decimal show_err release
        (ok daemon_set)
        (ok profiles)
        conflict
        clock
        "Managed"
        old in
    (e ≡ none)
    × ((version ≡ (if is_rolling_out daemon_set then "" else release))
        × ((status_of "Available" new ≡ some (truth (ltb 0 2)))
            × (status_of "Progressing" new
                ≡ some (
                    truth (
                      is_rolling_out daemon_set
                      || ltb 0 (num_profiles_progressing_degraded profiles).0)))))
compute_status-managed_example =
    compute_status-managed quote decimal show_err release conflict clock daemon_set profiles
      "Managed" old managed-is_off refl old-OnePerType

abbrev operator : ClusterOperator
operator = record { name = "node-tuning"; conditions = old; versions = []; related_objects = [] }

stale-differs : stale.observed_generation ≢ stale.generation
stale-differs e = omega (arith, e)
