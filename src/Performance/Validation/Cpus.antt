-- ===== src/Performance/Validation/Cpus.antt =====
-- pkg/apis/performanceprofile/v2/performanceprofile_validation.go: the CPU lists, and
-- pkg/performanceprofile/controller/performanceprofile/components/utils.go, which parses them. The
-- package cpuset of k8s.io/utils is a parameter. `none` is a nil pointer dereference.
use cluster_node_tuning_oper.Base.{
  String, ℕ, Bool, true, false, Option, none, some, List, [], ◌∷◌, ◌++◌, ◌==◌, string_eq,
  if◌then◌else◌,
}
use cluster_node_tuning_oper.Performance.Types.{
  Cpu, FieldErr, cpu_required, isolated_required, reserved_required, reserved_empty, isolated_empty,
  cpus_overlap,
}

-- What is used of the package cpuset; `parse` is none where Parse fails.
pub record Cpusets : Type 1 where
  pub CpuSet : Type 0
  pub parse : String → Option CpuSet
  pub is_empty : CpuSet → Bool
  pub intersection : CpuSet → CpuSet → List ℕ  -- as List returns it

-- `if cond { allErrs = append(allErrs, e) }`
abbrev pub when : Bool → FieldErr → List FieldErr
when true e = e ∷ []
when false e = []

module _ (C : Cpusets) where
  abbrev pub CpuSet : Type 0
  CpuSet = C.CpuSet

  -- CPULists. A map in Go has no order; its entries stand in the order in which they are written.
  pub record CpuLists : Type 0 where
    pub reserved : CpuSet
    pub isolated : CpuSet
    pub offlined : CpuSet
    pub shared : CpuSet

  unfoldable pub get_sets : CpuLists → List (String × CpuSet)
  get_sets l =
      ("reserved", l.reserved)
      ∷ ("isolated", l.isolated)
      ∷ ("offlined", l.offlined)
      ∷ ("shared", l.shared)
      ∷ []

  -- NewCPULists
  unfoldable pub new_cpu_lists : String → String → String → String → Option CpuLists
  new_cpu_lists reserved isolated offlined shared = elim (C.parse reserved) [
    | none ↦ none
    | some r ↦ elim (C.parse isolated) [
      | none ↦ none
      | some i ↦ elim (C.parse offlined) [
        | none ↦ none
        | some o ↦ elim (C.parse shared) [
          | none ↦ none
          | some s ↦ some (record { reserved = r; isolated = i; offlined = o; shared = s })
        ]
      ]
    ]
  ]

  abbrev pub is_nonempty : List ℕ → Bool
  is_nonempty [] = false
  is_nonempty (_ ∷ _) = true

  -- The inner loop, for one set.
  unfoldable pub overlaps : String → CpuSet → List (String × CpuSet) → List FieldErr
  overlaps k1 set1 [] = []
  overlaps k1 set1 ((k2, set2) ∷ rest) =
      let overlap = C.intersection set1 set2 in
      (if k1 == k2 then [] else when (is_nonempty overlap) (cpus_overlap k1 k2 overlap))
      ++ overlaps k1 set1 rest

  unfoldable pub overlaps_loop : List (String × CpuSet) → List (String × CpuSet) → List FieldErr
  unfolding overlaps
  overlaps_loop sets [] = []
  overlaps_loop sets ((k1, set1) ∷ rest) = overlaps k1 set1 sets ++ overlaps_loop sets rest

  -- validateNoIntersectionExists
  unfoldable pub validate_no_intersection_exists : CpuLists → List FieldErr → List FieldErr
  unfolding overlaps_loop get_sets
  validate_no_intersection_exists lists errs =
      errs ++ overlaps_loop (get_sets lists) (get_sets lists)

  abbrev pub text_of : Option String → String
  text_of none = ""
  text_of (some s) = s

  -- The checks of lists that are both given.
  unfoldable pub validate_lists : Cpu → String → String → Option (List FieldErr)
  unfolding new_cpu_lists validate_no_intersection_exists
  validate_lists cpus reserved isolated =
      elim (new_cpu_lists reserved isolated (text_of cpus.offlined) (text_of cpus.shared)) [
        | none ↦ none
        | some lists ↦ some (
            validate_no_intersection_exists lists (
              when (C.is_empty lists.reserved) reserved_empty
              ++ when (C.is_empty lists.isolated) isolated_empty))
      ]

  -- validateCPUs
  unfoldable pub validate_cpus : Option Cpu → Option (List FieldErr)
  unfolding validate_lists
  validate_cpus none = some (cpu_required ∷ [])
  validate_cpus (some cpus) = elim (cpus.isolated) [
    | none ↦
        some
          (isolated_required ∷ elim (cpus.reserved) [ none ↦ reserved_required ∷ [] | some _ ↦ [] ])
    | some isolated ↦ elim (cpus.reserved) [
      | none ↦ some (reserved_required ∷ [])
      | some reserved ↦ validate_lists cpus reserved isolated
    ]
  ]
