-- ===== src/Tests/Selection.antt =====
-- pkg/operator/profilecalculator.go, calculateProfile, at concrete inputs.
use cluster_node_tuning_oper.Base.{
  String, ℕ, true, false, Option, none, some, List, [], ◌∷◌, ◌++◌, ◌≡◌, refl, string_eq, option_eq,
  nat_eq, All, inl, inr, sort, subst, sym, subst, sym,
}
use cluster_node_tuning_oper.Base.Dict.{lookup}
use cluster_node_tuning_oper.Util.StringsMap.{Labels, map_of_strings_contains, has_entry}
use cluster_node_tuning_oper.Operator.Types.{
  Tuned, TunedRecommend, no_operand, Result, ok, err, Err, not_found, get_default_tuned,
}
use cluster_node_tuning_oper.Operator.State.{new_state}
use cluster_node_tuning_oper.Operator.Nodes.{Node}
use cluster_node_tuning_oper.Operator.Recommend.{tuned_recommend, tuned_profiles}
use cluster_node_tuning_oper.Operator.Pools.{
  Selectors, Pool, machine_config_labels_match, picks, get_pools_for_node, pools_of,
  pools_selecting,
}
use cluster_node_tuning_oper.Operator.Calculate.{
  calculate_profile, Warning, no_profile, default_profile, fetch_pools, Verdict, matched,
}
use cluster_node_tuning_oper.Operator.Calculate.Laws.{
  Misfits, no_pools, Fits, by_pools, ByLabels, PoolsAnswer, HasProfile, selected,
  calculate_profile-first, calculate_profile-none_fits,
}
use cluster_node_tuning_oper.Operator.Calculate.Errors.{calculate_profile-dup_error}
use cluster_node_tuning_oper.Operator.Types.{api_error}
use cluster_node_tuning_oper.Operator.Match.Laws.{catch_all}

-- Label selectors that are maps of labels.
abbrev selectors : Selectors
selectors = record {
  LabelSelector = Labels;
  Selector = Labels;
  as_selector = some;
  is_empty = λ s. elim s [ [] ↦ true | _ ∷ _ ↦ false ];
  selects = λ s labels. map_of_strings_contains labels s;
  match_labels = λ labels. labels;
}

abbrev role : String → Labels
role name = ("role", name) ∷ []

abbrev pool : Pool selectors
pool = record {
  name = "worker";
  machine_config_selector = role "worker";
  node_selector = role "worker";
}

abbrev node : Node
node = record { name = "n1"; labels = role "worker"; annotations = []; provider_id = "" }

abbrev nodes_get : String → Result Node
nodes_get _ = ok node

abbrev by_role : String → ℕ → TunedRecommend
by_role name priority = record {
  profile = some name;
  priority = some priority;
  rules = none;
  machine_config_labels = some (role name);
  operand = no_operand;
}

abbrev tuneds : List Tuned
tuneds =
    record {
      name = "default";
      profile = none;
      recommend = some (by_role "worker" 20 ∷ by_role "master" 10 ∷ by_role "infra" 30 ∷ []);
    }
    ∷ []

abbrev others : List Tuned
others =
    record { name = "default"; profile = none; recommend = some (by_role "master" 10 ∷ []) } ∷ []

by_role-not_ByLabels :
    (name : String) (priority : ℕ)
    → ¬ (ByLabels selectors new_state "n1" nodes_get (ok (pool ∷ [])) (by_role name priority))
by_role-not_ByLabels name priority (inl n, _) = n refl
by_role-not_ByLabels name priority (inr e, _) = absurd (cc)

tuneds-sorted :
    tuned_recommend tuneds
    ≡ (by_role "master" 10 ∷ []) ++ (by_role "worker" 20 ∷ (by_role "infra" 30 ∷ []))
unfolding tuned_recommend sort
tuneds-sorted = refl

others-sorted : tuned_recommend others ≡ by_role "master" 10 ∷ []
unfolding tuned_recommend sort
others-sorted = refl

master-answer :
    PoolsAnswer selectors new_state "n1" nodes_get (ok (pool ∷ [])) (role "master") false
unfolding fetch_pools get_pools_for_node pools_of pools_selecting picks machine_config_labels_match
    map_of_strings_contains has_entry lookup string_eq option_eq nat_eq
master-answer = (some (some pool ∷ []), refl, refl)

worker-answer : PoolsAnswer selectors new_state "n1" nodes_get (ok (pool ∷ [])) (role "worker") true
unfolding fetch_pools get_pools_for_node pools_of pools_selecting picks machine_config_labels_match
    map_of_strings_contains has_entry lookup string_eq option_eq nat_eq
worker-answer = (some (some pool ∷ []), refl, refl)

master-Misfits : Misfits selectors new_state "n1" nodes_get (ok (pool ∷ [])) (by_role "master" 10)
master-Misfits = no_pools (role "master") (by_role-not_ByLabels "master" 10) refl master-answer

worker-Fits :
    Fits selectors new_state "n1" nodes_get
      (ok (pool ∷ []))
      (by_role "worker" 20)
      (some (role "worker"))
worker-Fits = by_pools (role "worker") (by_role-not_ByLabels "worker" 20) refl worker-answer

infra-HasProfile :
    HasProfile selectors new_state "n1" nodes_get (ok (pool ∷ [])) (by_role "infra" 30)
infra-HasProfile e = cc

calculate_profile-first_example :
    (e : Option Err) × (warnings : List Warning) × (calculate_profile selectors new_state "n1"
        nodes_get
        (ok tuneds)
        (err not_found)
        (ok (pool ∷ []))
      ≡ some (
        selected selectors new_state "n1" nodes_get
            (ok (pool ∷ []))
            (by_role "worker" 20)
            "worker"
            (some (role "worker"))
            (tuned_profiles tuneds),
        e,
        warnings,
      ))
calculate_profile-first_example =
    calculate_profile-first selectors new_state "n1" nodes_get (ok (pool ∷ [])) tuneds
      (err not_found) (by_role "master" 10 ∷ []) (by_role "worker" 20) (by_role "infra" 30 ∷ [])
      (some (role "worker")) "worker" tuneds-sorted (master-Misfits, tt) worker-Fits refl
      (infra-HasProfile, tt)

calculate_profile-none_fits_example :
    calculate_profile selectors new_state "n1" nodes_get
      (ok others)
      (err not_found)
      (ok (pool ∷ []))
    ≡ some (
      record no_profile { tuned_profile_name = default_profile },
      some (get_default_tuned not_found),
      [],
    )
calculate_profile-none_fits_example =
    calculate_profile-none_fits selectors new_state "n1" nodes_get (ok (pool ∷ [])) others
      (err not_found)
      (subst (All (Misfits selectors new_state "n1" nodes_get (ok (pool ∷ [])))) (sym others-sorted)
        (master-Misfits, tt))

abbrev all_match : TunedRecommend → Verdict
all_match r = matched none ""

abbrev unreachable : String → Result Node
unreachable _ = err api_error

abbrev anywhere : TunedRecommend
anywhere = record (by_role "any" 10) { machine_config_labels = none }

abbrev mixed : List Tuned
mixed =
    record {
      name = "default";
      profile = none;
      recommend = some (anywhere ∷ by_role "worker" 20 ∷ []);
    }
    ∷ []

mixed-sorted : tuned_recommend mixed ≡ anywhere ∷ (by_role "worker" 20 ∷ [])
unfolding tuned_recommend sort
mixed-sorted = refl

anywhere-ByLabels : ByLabels selectors new_state "n1" unreachable (ok (pool ∷ [])) anywhere
anywhere-ByLabels = (inr refl, catch_all)

worker-not_ByLabels :
    ¬ (ByLabels selectors new_state "n1" unreachable (ok (pool ∷ [])) (by_role "worker" 20))
worker-not_ByLabels (inl n, _) = n refl
worker-not_ByLabels (inr e, _) = absurd (cc)

calculate_profile-dup_error_example :
    (warnings : List Warning) × (calculate_profile selectors new_state "n1" unreachable
        (ok mixed)
        (err not_found)
        (ok (pool ∷ []))
      ≡ some (
        selected selectors new_state "n1" unreachable
            (ok (pool ∷ []))
            anywhere
            "any"
            none
            (tuned_profiles mixed),
        some api_error,
        warnings,
      ))
calculate_profile-dup_error_example =
    calculate_profile-dup_error selectors new_state "n1" unreachable (ok (pool ∷ [])) api_error refl
      mixed (err not_found) anywhere (by_role "worker" 20) [] "any" (role "worker") mixed-sorted
      anywhere-ByLabels refl worker-not_ByLabels refl tt
