-- ===== src/Operator/Status/Counts.antt =====
-- pkg/operator/status.go: what the numbers of Profiles say.
use cluster_node_tuning_oper.Base.{
  ◌+◌, ◌≤◌, Bool, true, not, some, List, [], ◌∷◌, ◌&&◌, string_eq, ◌≡◌, refl, arith, length, ◌↔◌,
  all,
}
use cluster_node_tuning_oper.Operator.Status.Profiles.{
  Profile, profile_applied, profile_degraded, num_profiles_progressing_degraded,
}

abbrev pub is_settled : Profile → Bool
is_settled p = profile_applied (some p) && not (profile_degraded (some p))

-- The numbers of progressing and of degraded Profiles are both zero exactly when each Profile is
-- applied and none degraded; and they count no Profile twice.
pub num_profiles_progressing_degraded-zero :
    (ps : List Profile)
    → let (progressing, degraded) = num_profiles_progressing_degraded ps in
      ((progressing + degraded ≡ 0) ↔ (all is_settled ps ≡ true))
      × (progressing + degraded ≤ length ps)
unfolding num_profiles_progressing_degraded
num_profiles_progressing_degraded-zero [] = ((λ h. refl, λ h. refl), omega arith)
num_profiles_progressing_degraded-zero (p ∷ ps) =
    let ((a, b), c) = num_profiles_progressing_degraded-zero ps in
    ((λ h. ground (arith, a), λ h. ground (arith, b)), ground (arith, c))
