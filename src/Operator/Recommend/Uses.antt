-- ===== src/Operator/Recommend/Uses.antt =====
-- pkg/operator/profilecalculator.go: tunedsUsePodLabels, by which the operator decides whether it has
-- to watch pods at all.
use cluster_node_tuning_oper.Base.{
  String, false, Option, none, some, List, [], ◌∷◌, ◌&&◌, ◌||◌, ◌==◌, string_eq, option_eq, ◌≡◌,
  refl, ap₂, arith, All,
}
use cluster_node_tuning_oper.Operator.Types.{
  TunedRecommend, Tuned, TunedMatch, tuned_match, Matches, nil, cons, slice_of,
}
use cluster_node_tuning_oper.Operator.State.{TunedState}
use cluster_node_tuning_oper.Operator.Match.{
  label_matches, node_label_matches, profile_matches, any_rule_matches, rule_matches,
}
use cluster_node_tuning_oper.Operator.Recommend.{
  is_pod_type, uses_labels, rule_uses_labels, rules_use_labels, tuneds_use_pod_labels,
  tuned_recommend,
}

not_pod : (type : Option String) → is_pod_type type ≡ false → (type == some "pod") ≡ false
not_pod none h = ground arith
not_pod (some t) h = ground (arith, h)

module _ (s t : TunedState) (node : String) (same : s.node_labels ≡ t.node_labels) where
  node_label_matches-node :
      (label value : Option String)
      → node_label_matches s label value node ≡ node_label_matches t label value node
  unfolding node_label_matches
  node_label_matches-node none value = refl
  node_label_matches-node (some label) value = rw (same, node_label_matches)

  label_matches-node :
      (label value type : Option String)
      → is_pod_type type ≡ false
      → label_matches s node label value type ≡ label_matches t node label value type
  unfolding label_matches
  label_matches-node label value type h =
      rw (not_pod type h, label_matches) (node_label_matches-node label value)

  mutual
    unfolding profile_matches any_rule_matches rule_matches uses_labels rule_uses_labels

    profile_matches-node :
        (ms : Matches)
        → uses_labels is_pod_type ms ≡ false
        → profile_matches s node ms ≡ profile_matches t node ms
    profile_matches-node nil h = refl
    profile_matches-node (cons m ms) h =
        ap₂ ◌||◌ (rule_matches-node m (ground (arith, h)))
          (any_rule_matches-node ms (ground (arith, h)))

    any_rule_matches-node :
        (ms : Matches)
        → uses_labels is_pod_type ms ≡ false
        → any_rule_matches s node ms ≡ any_rule_matches t node ms
    any_rule_matches-node nil h = refl
    any_rule_matches-node (cons m ms) h =
        ap₂ ◌||◌ (rule_matches-node m (ground (arith, h)))
          (any_rule_matches-node ms (ground (arith, h)))

    rule_matches-node :
        (m : TunedMatch)
        → rule_uses_labels is_pod_type m ≡ false
        → rule_matches s node m ≡ rule_matches t node m
    rule_matches-node (tuned_match label value type sub) h =
        ap₂ ◌&&◌ (label_matches-node label value type (ground (arith, h)))
          (profile_matches-node sub (ground (arith, h)))

  abbrev pub Alike : TunedRecommend → Type 0
  Alike r = profile_matches s node (slice_of r.rules) ≡ profile_matches t node (slice_of r.rules)

  rules-Alike : (rs : List TunedRecommend) → rules_use_labels is_pod_type rs ≡ false → All Alike rs
  unfolding rules_use_labels
  rules-Alike [] h = tt
  rules-Alike (r ∷ rs) h = (
    profile_matches-node (slice_of r.rules) (ground (arith, h)),
    rules-Alike rs (ground (arith, h)),
  )

  -- If tunedsUsePodLabels says false, then each rule matches a node alike in any two states that have
  -- the same labels of nodes, whatever the labels of their pods are.
  pub tuneds_use_pod_labels-Alike :
      (ts : List Tuned) → tuneds_use_pod_labels ts ≡ false → All Alike (tuned_recommend ts)
  unfolding tuneds_use_pod_labels
  tuneds_use_pod_labels-Alike ts h = rules-Alike (tuned_recommend ts) h
