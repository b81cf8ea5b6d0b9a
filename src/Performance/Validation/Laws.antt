-- ===== src/Performance/Validation/Laws.antt =====
-- pkg/apis/performanceprofile/v2/performanceprofile_validation.go: when validation crashes, and which
-- CPU lists pass.
use cluster_node_tuning_oper.Base.{
  String, ℕ, Bool, true, false, Option, none, some, List, [], ◌∷◌, ◌++◌, ◌||◌, string_eq, nat_eq,
  ◌≡◌, refl, ◌↔◌, arith,
}
use cluster_node_tuning_oper.Performance.Types.{
  PerformanceProfile, Cpu, Net, WorkloadHints, FieldErr, cpus_overlap,
}
use cluster_node_tuning_oper.Performance.Validation.Cpus.{
  Cpusets, when, CpuLists, new_cpu_lists, validate_lists, validate_cpus, text_of,
  validate_no_intersection_exists, overlaps_loop, overlaps, get_sets, is_nonempty, CpuSet,
}
use cluster_node_tuning_oper.Performance.Validation.Devices.{
  is_on, validate_net, validate_workload_hints,
}
use cluster_node_tuning_oper.Performance.Validation.Basic.{validate_basic_fields}

-- A field that is only looked at with the CPU section is set.
abbrev pub needs_cpu : PerformanceProfile → Bool
needs_cpu r =
    (elim (r.net) [ none ↦ false | some net ↦ is_on net.user_level_networking ])
    || (elim (r.workload_hints) [ none ↦ false | some hints ↦ is_on hints.mixed_cpus ])

module _ (C : Cpusets) where
  -- The reserved and isolated lists are given, and one of the four lists does not parse.
  abbrev pub unparsable : Cpu → Bool
  unparsable c = elim (c.isolated) [
    | none ↦ false
    | some isolated ↦ elim (c.reserved) [
      | none ↦ false
      | some reserved ↦
          elim (new_cpu_lists C reserved isolated (text_of C c.offlined) (text_of C c.shared)) [
            | none ↦ true
            | some _ ↦ false
          ]
    ]
  ]

  is_none {ℓ} : {A : Type ℓ} → Option A → Bool
  is_none none = true
  is_none (some _) = false

  -- Validation dereferences a nil pointer exactly when the CPU section is missing though user level
  -- networking or mixed CPUs are on, or when the reserved and isolated CPUs are given and a list of
  -- CPUs does not parse.
  pub validate_basic_fields-crashes :
      (r : PerformanceProfile)
      → (validate_basic_fields C r ≡ none)
        ↔ (elim (r.cpu) [ none ↦ needs_cpu r | some c ↦ unparsable c ] ≡ true)
  unfolding validate_basic_fields validate_cpus validate_lists validate_net validate_workload_hints
  validate_basic_fields-crashes r = go r.cpu r.net r.workload_hints refl refl refl
    where
      go :
          (cpu : Option Cpu) (net : Option Net) (hints : Option WorkloadHints)
          → r.cpu ≡ cpu
          → r.net ≡ net
          → r.workload_hints ≡ hints
          → (validate_basic_fields C r ≡ none)
            ↔ (elim (r.cpu) [ none ↦ needs_cpu r | some c ↦ unparsable c ] ≡ true)
      go none none none e f g = (λ h. ground (arith, e, f, g, h), λ h. ground (arith, e, f, g, h))
      go none none (some hints) e f g =
          (λ h. ground (arith, e, f, g, h), λ h. ground (arith, e, f, g, h))
      go none (some net) none e f g =
          (λ h. ground (arith, e, f, g, h), λ h. ground (arith, e, f, g, h))
      go none (some net) (some hints) e f g =
          (λ h. ground (arith, e, f, g, h), λ h. ground (arith, e, f, g, h))
      go (some c) net hints e f g =
          (λ h. ground (arith, e, f, g, h), λ h. ground (arith, e, f, g, h))

  parts : (a b : List FieldErr) → a ++ b ≡ [] → (a ≡ []) × (b ≡ [])
  parts [] b h = (refl, h)
  parts (x ∷ a) b h = absurd (cc)

  clear :
      (x : List ℕ) (e : FieldErr) (rest : List FieldErr)
      → when (is_nonempty C x) e ++ rest ≡ []
      → (x ≡ []) × (rest ≡ [])
  clear [] e rest h = (refl, h)
  clear (n ∷ x) e rest h = absurd (cc)

  clear_pair :
      (k1 k2 : String) (a b : CpuSet C) (rest : List FieldErr)
      → when (is_nonempty C (C.intersection a b)) (cpus_overlap k1 k2 (C.intersection a b)) ++ rest
        ≡ []
      → (C.intersection a b ≡ []) × (rest ≡ [])
  clear_pair k1 k2 a b rest h =
      clear (C.intersection a b) (cpus_overlap k1 k2 (C.intersection a b)) rest h

  abbrev pub Disjoint : CpuSet C → CpuSet C → Type 0
  Disjoint a b = C.intersection a b ≡ []

  -- No two of the four lists share a CPU.
  abbrev NoIntersection : CpuLists C → Type 0
  NoIntersection l =
      Disjoint l.reserved l.isolated
      × (Disjoint l.reserved l.offlined
          × (Disjoint l.reserved l.shared
              × (Disjoint l.isolated l.offlined
                  × (Disjoint l.isolated l.shared × Disjoint l.offlined l.shared))))

  -- The lists of CPUs add no error exactly when no two of them share a CPU, provided that
  -- cpuset finds the CPUs that two sets share in either order.
  validate_no_intersection_exists_iff :
      (l : CpuLists C)
      → ((a b : CpuSet C) → C.intersection a b ≡ [] → C.intersection b a ≡ [])
      → (validate_no_intersection_exists C l [] ≡ []) ↔ NoIntersection l
  unfolding validate_no_intersection_exists overlaps_loop overlaps get_sets string_eq
  validate_no_intersection_exists_iff l comm = (
    λ h.
        let among = λ (name : String) (c : CpuSet C). overlaps C name c (get_sets C l) in
        let (hr, h1) = parts (among "reserved" l.reserved) _ h in
        let (hi, h2) = parts (among "isolated" l.isolated) _ h1 in
        let (ho, _) = parts (among "offlined" l.offlined) (among "shared" l.shared ++ []) h2 in
        let (ri, hr1) = clear _ _ _ hr in
        let (ro, hr2) = clear _ _ _ hr1 in
        let (rs, _) = clear _ _ _ hr2 in
        let (_, hi1) = clear _ _ _ hi in
        let (io, hi2) = clear _ _ _ hi1 in
        let (is, _) = clear _ _ _ hi2 in
        let (_, ho1) = clear_pair "offlined" "reserved" l.offlined l.reserved _ ho in
        let (_, ho2) = clear_pair "offlined" "isolated" l.offlined l.isolated _ ho1 in
        let (os, _) = clear_pair "offlined" "shared" l.offlined l.shared [] ho2 in
        (ri, (ro, (rs, (io, (is, os))))),
    λ (ri, (ro, (rs, (io, (is, os))))). rw (
      ri,
      ro,
      rs,
      io,
      is,
      os,
      comm _ _ ri,
      comm _ _ ro,
      comm _ _ rs,
      comm _ _ io,
      comm _ _ is,
      comm _ _ os,
    ),
  )
