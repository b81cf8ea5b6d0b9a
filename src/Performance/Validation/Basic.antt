-- ===== src/Performance/Validation/Basic.antt =====
-- pkg/apis/performanceprofile/v2/performanceprofile_validation.go: ValidateBasicFields and
-- validateCreateOrUpdate, which ValidateCreate and ValidateUpdate call. `none` is a nil pointer
-- dereference.
use cluster_node_tuning_oper.Base.{Option, none, some, List, [], ◌∷◌, ◌++◌}
use cluster_node_tuning_oper.Operator.Types.{Err, Result, ok, err}
use cluster_node_tuning_oper.Performance.Types.{PerformanceProfile, FieldErr}
use cluster_node_tuning_oper.Performance.Validation.Cpus.{Cpusets, validate_cpus}
use cluster_node_tuning_oper.Performance.Validation.Fields.{
  validate_node_selector_duplication, validate_selectors, validate_huge_pages, validate_numa,
  validate_cpu_frequency,
}
use cluster_node_tuning_oper.Performance.Validation.Devices.{validate_net, validate_workload_hints}

-- What the webhook answers.
pub data Admission : Type 0 where
  admitted : Admission
  internal_error : Err → Admission
  invalid : List FieldErr → Admission

module _ (C : Cpusets) where
  unfoldable pub validate_basic_fields : PerformanceProfile → Option (List FieldErr)
  unfolding validate_cpus validate_selectors validate_huge_pages validate_numa validate_net
      validate_workload_hints validate_cpu_frequency
  validate_basic_fields r = elim (validate_cpus C r.cpu) [
    | none ↦ none
    | some cpus ↦ elim (validate_net r.cpu r.net) [
      | none ↦ none
      | some net ↦ elim (validate_workload_hints r.cpu r.real_time_kernel r.workload_hints) [
        | none ↦ none
        | some hints ↦ some (
            cpus
            ++ (validate_selectors r
                ++ (validate_huge_pages r.huge_pages
                    ++ (validate_numa r.numa
                        ++ (net ++ (hints ++ validate_cpu_frequency r.hardware_tuning))))))
      ]
    ]
  ]

  -- `profiles` is the answer to List.
  unfoldable pub validate_create_or_update :
      PerformanceProfile → Result (List PerformanceProfile) → Option Admission
  unfolding validate_basic_fields validate_node_selector_duplication
  validate_create_or_update r (err e) = some (internal_error e)
  validate_create_or_update r (ok profiles) = elim (validate_basic_fields r) [
    | none ↦ none
    | some errs ↦ elim (validate_node_selector_duplication r profiles ++ errs) [
      | [] ↦ some admitted
      | e ∷ more ↦ some (invalid (e ∷ more))
    ]
  ]
