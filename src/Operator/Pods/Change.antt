-- ===== src/Operator/Pods/Change.antt =====
-- pkg/operator/profilecalculator.go: a pod event that reports no change changes no profile match.
pub mod Remove
use cluster_node_tuning_oper.Base.{
  String, Bool, true, false, not, Option, none, some, List, [], ◌∷◌, ◌&&◌, ◌||◌, ◌==◌, string_eq,
  nat_eq, any, if◌then◌else◌, length, ltb, ◌≡◌, ◌≢◌, refl, sym, ◌∙◌, ◌↔◌, ◌⊎◌, arith, All, ap, ap₂,
  Bool-cases, inl, inr, or_true, or_right, and_true, option_eq, ◌<>◌,
}
use cluster_node_tuning_oper.Base.Dict.{
  Dict, lookup, insert, erase, NodupKeys, lookup-insert, lookup-cons, insert-NodupKeys,
  lookup-erase,
}
use cluster_node_tuning_oper.Util.StringsMap.{Labels, has_entry}
use cluster_node_tuning_oper.Util.StringsMap.Laws.{has_entry_iff}
use cluster_node_tuning_oper.Operator.Types.{Matches}
use cluster_node_tuning_oper.Operator.State.{TunedState, PodsMap, map_at, IsPodsMap}
use cluster_node_tuning_oper.Operator.Match.{
  value_matches, pod_has_match, pod_label_matches, node_label_matches, label_matches,
}
use cluster_node_tuning_oper.Operator.Pods.Unique.{has_label}

abbrev pub LabelsNodup : PodsMap → Type 0
LabelsNodup = All (λ (_, labels). NodupKeys labels)

-- The value at which a label of a pod matches.
pod_has_match-found :
    (label : String) (value : Option String) (labels : Labels)
    → NodupKeys labels
    → pod_has_match label value labels ≡ true
    → (v : String) × (value_matches value v ≡ true) × (has_entry labels label v ≡ true)
unfolding pod_has_match has_entry lookup
pod_has_match-found label value [] u h = cc
pod_has_match-found label value ((k, w) ∷ labels) (fresh, u) h =
    go (or_true (k == label && value_matches value w) (pod_has_match label value labels) h)
      (pod_has_match-found label value labels u)
  where
    go :
        ((k == label && value_matches value w) ≡ true) ⊎ (pod_has_match label value labels ≡ true)
        → (pod_has_match label value labels ≡ true
            → (v : String) × (value_matches value v ≡ true) × (has_entry labels label v ≡ true))
        → (v : String) × (value_matches value v ≡ true)
          × (has_entry ((k, w) ∷ labels) label v ≡ true)
    go (inl e) f = (w, (and_true (k == label) (value_matches value w) e).1, ground arith)
    go (inr e) f = let (v, m, i) = f e in (v, m, ground arith)

pod_has_match-entry :
    (label : String) (value : Option String) (labels : Labels) (v : String)
    → value_matches value v ≡ true
    → has_entry labels label v ≡ true
    → pod_has_match label value labels ≡ true
unfolding pod_has_match has_entry lookup
pod_has_match-entry label value [] v m i = cc
pod_has_match-entry label value ((k, w) ∷ labels) v m i =
    ground (arith, pod_has_match-entry label value labels v)

any_pod-found :
    (label : String) (value : Option String) (pods : PodsMap)
    → LabelsNodup pods
    → any (λ (_, labels). pod_has_match label value labels) pods ≡ true
    → (v : String) × (value_matches value v ≡ true) × (has_label pods label v ≡ true)
unfolding has_label
any_pod-found label value [] u h = cc
any_pod-found label value ((p, labels) ∷ pods) (ul, u) h =
    go (or_true (pod_has_match label value labels) _ h) (any_pod-found label value pods u)
  where
    go :
        (pod_has_match label value labels ≡ true)
          ⊎ (any (λ (_, labels). pod_has_match label value labels) pods ≡ true)
        → (any (λ (_, labels). pod_has_match label value labels) pods ≡ true
            → (v : String) × (value_matches value v ≡ true) × (has_label pods label v ≡ true))
        → (v : String) × (value_matches value v ≡ true)
          × (has_label ((p, labels) ∷ pods) label v ≡ true)
    go (inl e) f =
        let (v, m, i) = pod_has_match-found label value labels ul e in (v, m, ground arith)
    go (inr e) f = let (v, m, i) = f e in (v, m, rw i (or_right (has_entry labels label v)))

any_pod-label :
    (label : String) (value : Option String) (pods : PodsMap) (v : String)
    → value_matches value v ≡ true
    → has_label pods label v ≡ true
    → any (λ (_, labels). pod_has_match label value labels) pods ≡ true
unfolding has_label
any_pod-label label value [] v m i = cc
any_pod-label label value ((p, labels) ∷ pods) v m i =
    ground (arith, any_pod-label label value pods v, pod_has_match-entry label value labels v)

same_truth : (a b : Bool) → (a ≡ true → b ≡ true) → (b ≡ true → a ≡ true) → a ≡ b
same_truth true b f g = sym (f refl)
same_truth false true f g = g refl
same_truth false false f g = refl

-- The labels with their values that the pods of a node have.
abbrev pub SameOnPods : PodsMap → PodsMap → Type 0
SameOnPods a b = (k v : String) → has_label a k v ≡ has_label b k v

any_pod-same :
    (label : String) (value : Option String) (a b : PodsMap)
    → LabelsNodup a
    → LabelsNodup b
    → SameOnPods a b
    → any (λ (_, labels). pod_has_match label value labels) a
      ≡ any (λ (_, labels). pod_has_match label value labels) b
any_pod-same label value a b ua ub h =
    same_truth _ _
      (λ t.
        let (v, m, i) = any_pod-found label value a ua t in
        any_pod-label label value b v m (sym (h label v) ∙ i))
      (λ t.
        let (v, m, i) = any_pod-found label value b ub t in
        any_pod-label label value a v m (h label v ∙ i))

-- Where the node's own labels are the same, and its pods have the same labels with the same values,
-- every label of a rule matches alike.
pub label_matches-same :
    (s t : TunedState) (node : String) (label value type : Option String)
    → map_at s.node_labels node ≡ map_at t.node_labels node
    → LabelsNodup (map_at s.pod_labels node)
    → LabelsNodup (map_at t.pod_labels node)
    → SameOnPods (map_at s.pod_labels node) (map_at t.pod_labels node)
    → label_matches s node label value type ≡ label_matches t node label value type
unfolding label_matches
label_matches-same s t node none value type e us ut h = refl
label_matches-same s t node (some label) value type e us ut h =
    ap₂ (λ a b. if type == some "pod" then a else b)
      (any_pod-same label value (map_at s.pod_labels node) (map_at t.pod_labels node) us ut h)
      (ap (λ d. elim (lookup label d) [ none ↦ false | some v ↦ value_matches value v ]) e)
