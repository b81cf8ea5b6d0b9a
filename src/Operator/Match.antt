-- ===== src/Operator/Match.antt =====
-- pkg/operator/profilecalculator.go: the matching of node and pod labels.
pub mod Laws
use cluster_node_tuning_oper.Base.{
  String, Bool, true, false, not, Option, none, some, List, [], ◌∷◌, ◌&&◌, ◌||◌, ◌==◌, string_eq,
  option_eq, any, if◌then◌else◌,
}
use cluster_node_tuning_oper.Base.Dict.{Dict, lookup}
use cluster_node_tuning_oper.Util.StringsMap.{Labels}
use cluster_node_tuning_oper.Operator.Types.{TunedMatch, tuned_match, Matches, nil, cons, Tuned}
use cluster_node_tuning_oper.Operator.State.{TunedState, PodsMap, map_at}

-- `mValue == nil || value == *mValue`
unfoldable pub value_matches : Option String → String → Bool
value_matches none value = true
value_matches (some v) value = value == v

-- The loop over the labels of a node stops at the one entry of the key.
unfoldable pub node_label_matches : TunedState → Option String → Option String → String → Bool
unfolding value_matches
node_label_matches s none value node = true
node_label_matches s (some label) value node = elim (lookup label (map_at s.node_labels node)) [
  | none ↦ false
  | some v ↦ value_matches value v
]

unfoldable pub pod_has_match : String → Option String → Labels → Bool
unfolding value_matches
pod_has_match label value = any (λ (k, v). k == label && value_matches value v)

unfoldable pub pod_label_matches : TunedState → Option String → Option String → String → Bool
unfolding pod_has_match
pod_label_matches s none value node = true
pod_label_matches s (some label) value node =
    any (λ (_, labels). pod_has_match label value labels) (map_at s.pod_labels node)

unfoldable pub label_matches :
    TunedState → String → Option String → Option String → Option String → Bool
unfolding node_label_matches pod_label_matches
label_matches s node label value type =
    if type == some "pod"
    then pod_label_matches s label value node
    else node_label_matches s label value node

unfoldable mutual
  unfolding label_matches

  pub profile_matches : TunedState → String → Matches → Bool
  profile_matches s node nil = true
  profile_matches s node (cons m ms) = rule_matches s node m || any_rule_matches s node ms

  -- The loop over the rules.
  pub any_rule_matches : TunedState → String → Matches → Bool
  any_rule_matches s node nil = false
  any_rule_matches s node (cons m ms) = rule_matches s node m || any_rule_matches s node ms

  -- The body of the loop: the label, and the subtree.
  pub rule_matches : TunedState → String → TunedMatch → Bool
  rule_matches s node (tuned_match label value type sub) =
      label_matches s node label value type && profile_matches s node sub
