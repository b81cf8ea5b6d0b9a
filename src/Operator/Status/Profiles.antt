-- ===== src/Operator/Status/Profiles.antt =====
-- pkg/operator/status.go: how many Profiles are applied, degraded and in conflict.
use cluster_node_tuning_oper.Base.{
  String, ℕ, suc, Bool, true, false, not, Option, none, some, List, [], ◌∷◌, ◌&&◌, ◌==◌, string_eq,
  if◌then◌else◌,
}
use cluster_node_tuning_oper.Base.Dict.{Dict, lookup}
use cluster_node_tuning_oper.Conditions.{Condition}

abbrev pub true_ : String
true_ = "True"

abbrev pub false_ : String
false_ = "False"

-- Profile, with the fields that its status is read from.
pub record Profile : Type 0 where
  pub name : String
  pub spec_profile : String  -- Spec.Config.TunedProfile
  pub status_profile : String  -- Status.TunedProfile
  pub conditions : List Condition

-- The loop for a condition of a type that is true.
unfoldable pub has_true : String → List Condition → Bool
has_true t [] = false
has_true t (sc ∷ rest) =
    let later = has_true t rest in if (sc.typ == t) && (sc.status == true_) then true else later

unfoldable pub profile_applied : Option Profile → Bool
profile_applied none = false
profile_applied (some p) =
    if not (p.spec_profile == p.status_profile) then false else has_true "Applied" p.conditions

unfoldable pub profile_degraded : Option Profile → Bool
profile_degraded none = false
profile_degraded (some p) = has_true "Degraded" p.conditions

-- The numbers of Profiles that are progressing, and that are degraded. The lister's Profiles are not nil.
unfoldable pub num_profiles_progressing_degraded : List Profile → ℕ × ℕ
unfolding profile_applied profile_degraded
num_profiles_progressing_degraded [] = (0, 0)
num_profiles_progressing_degraded (p ∷ ps) =
    let (progressing, degraded) = num_profiles_progressing_degraded ps in
    if profile_degraded (some p)
    then (progressing, suc degraded)
    else (if not (profile_applied (some p))
        then (suc progressing, degraded)
        else (progressing, degraded))

-- `bootcmdlineConflict[name]`, where a missing name is read as false.
abbrev pub in_conflict : Dict String Bool → String → Bool
in_conflict conflict name = elim (lookup name conflict) [ none ↦ false | some b ↦ b ]

unfoldable pub num_profiles_with_bootcmdline_conflict : Dict String Bool → List Profile → ℕ
num_profiles_with_bootcmdline_conflict conflict [] = 0
num_profiles_with_bootcmdline_conflict conflict (p ∷ ps) =
    let rest = num_profiles_with_bootcmdline_conflict conflict ps in
    if in_conflict conflict p.name then suc rest else rest
