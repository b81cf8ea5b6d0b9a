-- ===== src/Operator/Calculate.antt =====
-- pkg/operator/profilecalculator.go: calculateProfile and calculateProfileHyperShift. The answers of
-- the listers and of the label selectors are parameters. `none` is a nil pointer dereference.
pub mod Select
pub mod Laws
pub mod Errors
use cluster_node_tuning_oper.Base.{
  String, ℕ, zero, suc, Bool, true, false, not, Option, none, some, List, [], ◌∷◌, ◌++◌, ◌&&◌, ◌||◌,
  ◌==◌, string_eq, nat_eq, if◌then◌else◌, length,
}
use cluster_node_tuning_oper.Util.StringsMap.{Labels}
use cluster_node_tuning_oper.Operator.Types.{
  TunedRecommend, TunedProfile, Tuned, Matches, slice_of, OperandConfig, no_operand, Err, not_found,
  list_tuned, get_default_tuned, no_catch_all, Result, ok, err,
}
use cluster_node_tuning_oper.Operator.State.{TunedState, string_at}
use cluster_node_tuning_oper.Operator.Match.{profile_matches}
use cluster_node_tuning_oper.Operator.Nodes.{Node}
use cluster_node_tuning_oper.Operator.Recommend.{tuned_profiles, tuned_recommend}
use cluster_node_tuning_oper.Operator.Pools.{
  Selectors, Pool, machine_config_labels_match, get_pools_for_node,
}

abbrev pub default_profile : String
default_profile = "openshift-node"

abbrev pub is_nil {ℓ} : {A : Type ℓ} → Option A → Bool
is_nil none = true
is_nil (some _) = false

pub record ComputedProfile : Type 0 where
  pub tuned_profile_name : String
  pub all_profiles : List TunedProfile
  pub mc_labels : Option Labels
  pub node_pool_name : String
  pub operand : OperandConfig

abbrev pub no_profile : ComputedProfile
no_profile = record {
  tuned_profile_name = "";
  all_profiles = [];
  mc_labels = none;
  node_pool_name = "";
  operand = no_operand;
}

-- What the closure recommendProfile returns. In place of the index `i` it is the rest of the rules
-- from `i` on, which is empty where no rule matched.
pub record Found : Type 0 where
  pub rest : List TunedRecommend
  pub profile : String
  pub mc_labels : Option Labels
  pub node_pool_name : String
  pub operand : OperandConfig
  pub error : Option Err

abbrev pub nothing_found : Found
nothing_found = record {
  rest = [];
  profile = default_profile;
  mc_labels = none;
  node_pool_name = "";
  operand = no_operand;
  error = none;
}

abbrev pub failed : List TunedRecommend → Err → Found
failed rules e = record {
  rest = rules;
  profile = "";
  mc_labels = none;
  node_pool_name = "";
  operand = no_operand;
  error = some e;
}

-- `return i, *recommend.Profile, labels, recommend.Operand, nil`
unfoldable pub found_at :
    TunedRecommend → List TunedRecommend → Option Labels → String → Option Found
found_at r rules labels pool = elim (r.profile) [
  | none ↦ none
  | some p ↦ some (record {
    rest = r ∷ rules;
    profile = p;
    mc_labels = labels;
    node_pool_name = pool;
    operand = r.operand;
    error = none;
  })
]

-- The warnings of the check for duplicates.
pub data Warning : Type 0 where
  undefined_priority : String → String → Warning
  same_priority : String → String → ℕ → Warning

-- The closures return with the value of the outer variable `err`, which they may write.
abbrev pub Closure : Type 0
Closure = List TunedRecommend → Option Err → Option (Found × Option Err)

-- What a round of the loop over duplicates finds: the loop goes on, or it ends. The warning on a
-- priority that is not defined dereferences both profiles. That of the other rule is not nil, since
-- recommendProfile dereferenced it to return the name `dup`.
unfoldable pub compare_rules :
    TunedRecommend → TunedRecommend → String → String → Option (Bool × List Warning)
compare_rules first other name dup =
    let undefined : Option (Bool × List Warning) = elim (first.profile) [
      | none ↦ none
      | some p ↦ some (true, undefined_priority p dup ∷ [])
    ] in
    elim (first.priority) [
      | none ↦ undefined
      | some p ↦ elim (other.priority) [
        | none ↦ undefined
        | some q ↦ some (
            if p == q
            then (true, (if not (name == dup) then same_priority name dup q ∷ [] else []))
            else (false, []))
      ]
    ]

-- The loop that looks for other matching rules of the same priority, on fuel. It runs over the rules
-- behind `first`, and returns the outer variable `err` and the warnings.
unfoldable pub dup_loop :
    ℕ
    → Closure
    → TunedRecommend
    → String
    → List TunedRecommend
    → Option Err
    → Option (Option Err × List Warning)
unfolding compare_rules
dup_loop zero recommend first name rules errv = some (errv, [])
dup_loop (suc fuel) recommend first name [] errv = some (errv, [])
dup_loop (suc fuel) recommend first name (r ∷ rs) errv = elim (recommend (r ∷ rs) errv) [
  | none ↦ none
  | some (f, errv') ↦ elim (f.error) [
    | some _ ↦ dup_loop fuel recommend first name rs errv'
    | none ↦ elim (f.rest) [
      | [] ↦ some (errv', [])
      | q ∷ qs ↦ elim (compare_rules first q name f.profile) [
        | none ↦ none
        | some (go_on, warnings) ↦ elim go_on [
          | false ↦ some (errv', warnings)
          | true ↦ elim (dup_loop fuel recommend first name qs errv') [
            | none ↦ none
            | some (e, more) ↦ some (e, warnings ++ more)
          ]
        ]
      ]
    ]
  ]
]

-- How the body of a closure's loop ends for one rule. A rule that is skipped after the node and its
-- pools were fetched has reset the outer variable `err`.
pub data Verdict : Type 0 where
  matched : Option Labels → String → Verdict
  skipped : Verdict
  fetched_skipped : Verdict
  fetched_matched : Labels → Verdict
  fetch_failed : Err → Verdict
  crashed : Verdict

-- The loop of both closures, by the verdict on each rule.
unfoldable pub recommend_loop : (TunedRecommend → Verdict) → Closure
unfolding found_at
recommend_loop verdict [] errv = some (nothing_found, errv)
recommend_loop verdict (r ∷ rs) errv = elim (verdict r) [
  | matched labels pool ↦ elim (found_at r rs labels pool) [ none ↦ none | some f ↦ some (f, errv) ]
  | skipped ↦ recommend_loop verdict rs errv
  | fetched_skipped ↦ recommend_loop verdict rs none
  | fetched_matched labels ↦ elim (found_at r rs (some labels) "") [
    | none ↦ none
    | some f ↦ some (f, none)
  ]
  | fetch_failed e ↦ some (failed (r ∷ rs) e, some e)
  | crashed ↦ none
]

abbrev pub Outcome : Type 0
Outcome = Option (ComputedProfile × Option Err × List Warning)

-- Both functions behind their first call of recommendProfile: the loop over duplicates, and the end.
unfoldable pub finish :
    (TunedRecommend → Verdict) → List TunedProfile → Found × Option Err → Outcome
unfolding dup_loop recommend_loop
finish verdict profiles (f, errv) = elim (f.rest) [
  | [] ↦ none
  | first ∷ behind ↦
      elim (dup_loop (suc (length behind)) (recommend_loop verdict) first f.profile behind
        f.error) [
          | none ↦ none
          | some (e, warnings) ↦ some (
            record {
              tuned_profile_name = f.profile;
              all_profiles = profiles;
              mc_labels = f.mc_labels;
              node_pool_name = f.node_pool_name;
              operand = f.operand;
            },
            e,
            warnings,
          )
        ]
]

module _ (S : Selectors) (s : TunedState) (node : String) (nodes_get : String → Result Node) where
  -- `Nodes.Get(nodeName)` and `getPoolsForNode(node)`
  unfoldable pub fetch_pools : Result (List (Pool S)) → Result (Option (List (Option (Pool S))))
  fetch_pools pools = elim (nodes_get node) [ err e ↦ err e | ok n ↦ get_pools_for_node S pools n ]

  -- The body of the loop in calculateProfile. The node is fetched anew for each rule, since the
  -- variables `node` and `pools` are declared inside the loop.
  unfoldable pub rule_verdict : Result (List (Pool S)) → TunedRecommend → Verdict
  unfolding fetch_pools
  rule_verdict pools r =
      elim ((not (is_nil r.rules) || is_nil r.machine_config_labels)
        && profile_matches s node (slice_of r.rules)) [
          | true ↦ matched none ""
          | false ↦ elim (r.machine_config_labels) [
            | none ↦ skipped
            | some labels ↦ elim (fetch_pools pools) [
              | err e ↦ fetch_failed e
              | ok ps ↦ elim (machine_config_labels_match S (some labels) ps) [
                | none ↦ crashed
                | some true ↦ fetched_matched labels
                | some false ↦ fetched_skipped
              ]
            ]
          ]
        ]

  -- `tuneds` is the answer to List, and `default_get` that to Get of the default resource.
  unfoldable pub calculate_profile :
      Result (List Tuned) → Result Tuned → Result (List (Pool S)) → Outcome
  unfolding recommend_loop finish tuned_profiles tuned_recommend
  calculate_profile (err e) default_get pools = some (no_profile, some (list_tuned e), [])
  calculate_profile (ok tuneds) default_get pools =
      elim (recommend_loop (rule_verdict pools) (tuned_recommend tuneds) none) [
        | none ↦ none
        | some (f, errv) ↦ elim (f.rest) [
          | [] ↦ some (
            record no_profile { tuned_profile_name = default_profile; operand = f.operand },
            elim default_get [ err e ↦ some (get_default_tuned e) | ok _ ↦ some no_catch_all ],
            [],
          )
          | _ ∷ _ ↦ finish (rule_verdict pools) (tuned_profiles tuneds) (f, errv)
        ]
      ]

abbrev pub node_pool_label : String
node_pool_label = "hypershift.openshift.io/nodePool"

-- getNodePoolNameForNode
unfoldable pub get_node_pool_name_for_node : Node → String
get_node_pool_name_for_node n = string_at n.labels node_pool_label

-- The body of the loop in calculateProfileHyperShift. A nil `Profile` is dereferenced by the test.
unfoldable pub hyper_shift_verdict : TunedState → String → String → TunedRecommend → Verdict
hyper_shift_verdict s node pool r = elim (r.rules) [
  | none ↦ elim (r.profile) [
    | none ↦ crashed
    | some p ↦ if p == default_profile then matched none "" else matched none pool
  ]
  | some rules ↦ if profile_matches s node rules then matched none "" else skipped
]

module _ (s : TunedState) (node : String) (nodes_get : String → Result Node) where
  -- `tuneds` is the answer to List, given the name of the NodePool that labels must have.
  unfoldable pub calculate_profile_hyper_shift :
      (String → Result (List Tuned)) → Result Tuned → Outcome
  unfolding recommend_loop finish tuned_profiles tuned_recommend get_node_pool_name_for_node
  calculate_profile_hyper_shift tuneds default_get = elim (nodes_get node) [
    | err e ↦ some (no_profile, some e, [])
    | ok n ↦
        let pool = get_node_pool_name_for_node n in
        elim (tuneds pool) [
          | err e ↦ some (no_profile, some (list_tuned e), [])
          | ok ts ↦ elim default_get [
            | err e ↦ some (
              record no_profile { tuned_profile_name = default_profile },
              some (get_default_tuned e),
              [],
            )
            | ok d ↦
                let all = ts ++ (d ∷ []) in
                elim (recommend_loop (hyper_shift_verdict s node pool) (tuned_recommend all) none) [
                  | none ↦ none
                  | some (f, errv) ↦ elim (f.rest) [
                    | [] ↦ some (
                      record no_profile {
                        tuned_profile_name = default_profile;
                        all_profiles = tuned_profiles all;
                        operand = f.operand;
                      },
                      some no_catch_all,
                      [],
                    )
                    | _ ∷ _ ↦
                        finish (hyper_shift_verdict s node pool) (tuned_profiles all) (f, errv)
                  ]
                ]
          ]
        ]
  ]
