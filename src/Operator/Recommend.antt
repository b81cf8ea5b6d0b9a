-- ===== src/Operator/Recommend.antt =====
-- pkg/operator/profilecalculator.go: the rules and the profiles of all Tuned resources, sorted.
-- Tuned resources have distinct names and the merged profiles too, so `sort.Slice` has one result.
pub mod Laws
pub mod Order
pub mod Uses
use cluster_node_tuning_oper.Base.{
  String, ℕ, Bool, true, false, not, Option, none, some, List, [], ◌∷◌, ◌++◌, ◌==◌, string_eq,
  if◌then◌else◌, lt_str, ltb, sort, map,
}
use cluster_node_tuning_oper.Base.Dict.{Dict, lookup, insert}
use cluster_node_tuning_oper.Operator.Types.{
  TunedRecommend, TunedProfile, Tuned, Matches, TunedMatch, nil, cons, tuned_match, slice_of,
}

abbrev pub by_name : Tuned → Tuned → Bool
by_name a b = lt_str a.name b.name

-- The `less` of the rules: an undefined priority comes last.
abbrev pub priority_less : Option ℕ → Option ℕ → Bool
priority_less (some p) (some q) = ltb p q
priority_less (some p) none = true
priority_less none q = false

abbrev pub by_priority : TunedRecommend → TunedRecommend → Bool
by_priority a b = priority_less a.priority b.priority

-- The loop that appends the rules of each resource.
unfoldable pub collect_rules : List Tuned → List TunedRecommend
collect_rules [] = []
collect_rules (t ∷ ts) = elim (t.recommend) [
  | none ↦ collect_rules ts
  | some rules ↦ rules ++ collect_rules ts
]

unfoldable pub tuned_recommend : List Tuned → List TunedRecommend
unfolding collect_rules
tuned_recommend ts = sort by_priority (collect_rules (sort by_name ts))

-- The map `m` of tunedProfiles, after the profiles of one resource. A profile with a name that is
-- there replaces the old one, whatever its contents are.
unfoldable pub merge_profiles :
    List TunedProfile → Dict String TunedProfile → Dict String TunedProfile
merge_profiles [] m = m
merge_profiles (p ∷ ps) m = merge_profiles ps (elim (p.name) [
  | none ↦ m
  | some name ↦ elim (p.contents) [ none ↦ m | some _ ↦ insert name p m ]
])

unfoldable pub merge_tuneds : List Tuned → Dict String TunedProfile → Dict String TunedProfile
unfolding merge_profiles
merge_tuneds [] m = m
merge_tuneds (t ∷ ts) m =
    merge_tuneds ts (elim (t.profile) [ none ↦ m | some ps ↦ merge_profiles ps m ])

-- `*a.Name < *b.Name`. The profiles of the map all have a name.
abbrev pub by_profile_name : TunedProfile → TunedProfile → Bool
by_profile_name a b = elim (a.name) [
  | none ↦ false
  | some x ↦ elim (b.name) [ none ↦ false | some y ↦ lt_str x y ]
]

-- The second half of tunedProfiles, on the entries of the map in the order of iteration.
unfoldable pub sort_profiles : Dict String TunedProfile → List TunedProfile
sort_profiles m = sort by_profile_name (map (λ (_, p). p) m)

unfoldable pub tuned_profiles : List Tuned → List TunedProfile
unfolding merge_tuneds sort_profiles
tuned_profiles ts = sort_profiles (merge_tuneds ts [])

-- `m.Type == nil || *m.Type == "node"`, and `m.Type != nil && *m.Type == "pod"`.
abbrev pub is_node_type : Option String → Bool
is_node_type none = true
is_node_type (some t) = t == "node"

abbrev pub is_pod_type : Option String → Bool
is_pod_type none = false
is_pod_type (some t) = t == "pod"

-- tunedUsesNodeLabels and tunedUsesPodLabels, by the test on a rule's type.
unfoldable mutual
  pub uses_labels : (Option String → Bool) → Matches → Bool
  uses_labels p nil = false
  uses_labels p (cons m ms) = elim (rule_uses_labels p m) [ true ↦ true | false ↦ uses_labels p ms ]

  pub rule_uses_labels : (Option String → Bool) → TunedMatch → Bool
  rule_uses_labels p (tuned_match label value type sub) = elim (p type) [
    | true ↦ true
    | false ↦ uses_labels p sub
  ]

abbrev pub tuned_uses_node_labels : Matches → Bool
tuned_uses_node_labels = uses_labels is_node_type

abbrev pub tuned_uses_pod_labels : Matches → Bool
tuned_uses_pod_labels = uses_labels is_pod_type

-- The loop of tunedsUseNodeLabels and tunedsUsePodLabels over the sorted rules.
unfoldable pub rules_use_labels : (Option String → Bool) → List TunedRecommend → Bool
unfolding uses_labels
rules_use_labels p [] = false
rules_use_labels p (r ∷ rs) =
    if uses_labels p (slice_of r.rules) then true else rules_use_labels p rs

unfoldable pub tuneds_use_node_labels : List Tuned → Bool
unfolding rules_use_labels tuned_recommend
tuneds_use_node_labels ts = rules_use_labels is_node_type (tuned_recommend ts)

unfoldable pub tuneds_use_pod_labels : List Tuned → Bool
unfolding rules_use_labels tuned_recommend
tuneds_use_pod_labels ts = rules_use_labels is_pod_type (tuned_recommend ts)
