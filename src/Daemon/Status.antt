-- ===== src/Daemon/Status.antt =====
-- pkg/tuned/status.go: the conditions of a Profile, from the bits that the daemon's log sets
-- (pkg/tuned/controller.go). A bit is a power of two, and `status & bit != 0` a test of one digit.
pub mod Laws
use cluster_node_tuning_oper.Base.{
  String, ◌<>◌, ℕ, ◌/◌, ◌%◌, Bool, true, false, not, List, [], ◌∷◌, ◌==◌, nat_eq, if◌then◌else◌,
}
use cluster_node_tuning_oper.Conditions.{Condition, set_status_condition}

abbrev pub sc_applied : ℕ
sc_applied = 1

abbrev pub sc_warn : ℕ
sc_warn = 2

abbrev pub sc_error : ℕ
sc_error = 4

abbrev pub sc_sysctl_override : ℕ
sc_sysctl_override = 8

abbrev pub sc_reloading : ℕ
sc_reloading = 16

abbrev pub sc_unknown : ℕ
sc_unknown = 32

-- `status & bit != 0`
unfoldable pub has_bit : ℕ → ℕ → Bool
has_bit status bit = not ((status / bit) % 2 == 0)

abbrev pub condition : String → String → String → String → ℕ → Condition
condition typ status reason message now = record {
  typ = typ;
  status = status;
  reason = reason;
  message = message;
  last_transition_time = now;
}

-- InitializeStatusConditions
unfoldable pub initialize_status_conditions : ℕ → List Condition
initialize_status_conditions now =
    condition "Applied" "Unknown" "" "" now ∷ condition "Degraded" "Unknown" "" "" now ∷ []

unfoldable pub applied_condition : ℕ → Condition
applied_condition status =
    if has_bit status sc_applied
    then condition "Applied" "True" "AsExpected" "TuneD profile applied." 0
    else condition "Applied" "False" "Failed"
        "The TuneD daemon profile not yet applied, or application failed." 0

unfoldable pub degraded_condition : ℕ → String → Condition
degraded_condition status stderr =
    if has_bit status sc_error
    then condition "Degraded" "True" "TunedError"
        ("TuneD daemon issued one or more error message(s) during profile application. TuneD stderr: "
          <> stderr)
        0
    else (if has_bit status sc_sysctl_override
        then condition "Degraded" "True" "TunedSysctlOverride"
            ("TuneD daemon issued one or more sysctl override message(s) during profile application. Use reapply_sysctl=true or remove conflicting sysctl "
              <> stderr)
            0
        else (if has_bit status sc_warn
            then condition "Degraded" "False" "TunedWarning"
                ("No error messages observed by applying the TuneD daemon profile, only warning(s). TuneD stderr: "
                  <> stderr)
                0
            else condition "Degraded" "False" "AsExpected"
                "No warning or error messages observed applying the TuneD daemon profile." 0))

-- setStatusCondition of this package, which is the same code as SetStatusCondition.
unfoldable pub set_profile_condition : ℕ → Condition → List Condition → List Condition
set_profile_condition = set_status_condition

-- computeStatusConditions; the clock is read for each condition.
unfoldable pub compute_status_conditions : ℕ → ℕ → ℕ → String → List Condition → List Condition
unfolding applied_condition degraded_condition set_profile_condition initialize_status_conditions
compute_status_conditions at_applied at_degraded status stderr conditions =
    if has_bit status sc_unknown
    then initialize_status_conditions at_applied
    else set_profile_condition at_degraded (degraded_condition status stderr)
        (set_profile_condition at_applied (applied_condition status) conditions)
