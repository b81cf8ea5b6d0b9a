-- ===== src/Operator/Pods/Unique.antt =====
-- pkg/operator/profilecalculator.go: podLabelsUnique and podLabelsNodeWideChange are exact. A change
-- is reported exactly if some label appears on the node or vanishes from it.
use cluster_node_tuning_oper.Base.{
  String, Bool, true, false, not, Option, none, some, [], ◌∷◌, ◌||◌, string_eq, nat_eq, any,
  if◌then◌else◌, ◌≡◌, refl, sym, ◌∙◌, ◌↔◌, arith, ap, Bool-cases, inl, inr,
}
use cluster_node_tuning_oper.Base.Dict.{lookup, insert, NodupKeys, lookup-insert, insert-NodupKeys}
use cluster_node_tuning_oper.Util.StringsMap.{Labels, has_entry}
use cluster_node_tuning_oper.Util.StringsMap.Laws.{has_entry_iff, map_of_strings_equal_iff}
use cluster_node_tuning_oper.Operator.State.{PodsMap, map_at}
use cluster_node_tuning_oper.Operator.Pods.{
  on_other_pod, unique_loop, pod_labels_unique, pod_labels_node_wide_change,
}

not-false : (b : Bool) → not b ≡ false → b ≡ true
not-false true h = refl
not-false false h = cc

-- Some pod of the node has the label with this value.
unfoldable pub has_label : PodsMap → String → String → Bool
has_label pods key value = any (λ (_, labels). has_entry labels key value) pods

pub on_other_pod-absent :
    (pods : PodsMap) (pod k v : String)
    → lookup pod pods ≡ none
    → on_other_pod pods pod k v ≡ has_label pods k v
unfolding on_other_pod has_label lookup
on_other_pod-absent [] pod k v h = refl
on_other_pod-absent ((p, labels) ∷ pods) pod k v h =
    ground (arith, on_other_pod-absent pods pod k v)

-- The labels of a node are those of one pod and those of the other pods.
pub has_label-split :
    (pods : PodsMap) (pod k v : String)
    → NodupKeys pods
    → has_label pods k v ≡ (on_other_pod pods pod k v || has_entry (map_at pods pod) k v)
unfolding on_other_pod has_label lookup has_entry
has_label-split [] pod k v u = refl
has_label-split ((p, labels) ∷ pods) pod k v (fresh, u) =
    ground (arith, has_label-split pods pod k v u, on_other_pod-absent pods pod k v)

pub has_label-insert :
    (pods : PodsMap) (pod k v : String) (labels : Labels)
    → NodupKeys pods
    → has_label (insert pod labels pods) k v ≡ (on_other_pod pods pod k v || has_entry labels k v)
unfolding on_other_pod has_label insert
has_label-insert [] pod k v labels u = ground arith
has_label-insert ((p, l) ∷ pods) pod k v labels (fresh, u) =
    ground (arith, has_label-insert pods pod k v labels u, on_other_pod-absent pods pod k v)

-- The unique labels of a pod are those that no other pod of the node has.
abbrev pub unique_at : PodsMap → String → String → Option String → Option String → Option String
unique_at pods pod k none old = old
unique_at pods pod k (some v) old = if on_other_pod pods pod k v then old else some v

pub lookup-unique_loop :
    (pods : PodsMap) (pod k : String) (labels acc : Labels)
    → NodupKeys labels
    → lookup k (unique_loop pods pod labels acc)
      ≡ unique_at pods pod k (lookup k labels) (lookup k acc)
unfolding unique_loop lookup
lookup-unique_loop pods pod k [] acc u = refl
lookup-unique_loop pods pod k ((j, w) ∷ labels) acc (fresh, u) = ground (
  arith,
  lookup-unique_loop pods pod k labels acc u,
  lookup-unique_loop pods pod k labels (insert j w acc) u,
  lookup-insert k j w acc,
)

pub unique_loop-NodupKeys :
    (pods : PodsMap) (pod : String) (labels acc : Labels)
    → NodupKeys acc
    → NodupKeys (unique_loop pods pod labels acc)
unfolding unique_loop
unique_loop-NodupKeys pods pod [] acc u = u
unique_loop-NodupKeys pods pod ((j, w) ∷ labels) acc u =
    elim (Bool-cases (on_other_pod pods pod j w)) [
      | inl e ↦ rw e (unique_loop-NodupKeys pods pod labels acc u)
      | inr e ↦
          rw e (unique_loop-NodupKeys pods pod labels (insert j w acc) (insert-NodupKeys j w acc u))
    ]

-- The labels of a pod, as the node has them before and after they change to `new`.
abbrev pub SameOnNode : PodsMap → String → Labels → Labels → Type 0
SameOnNode pods pod old new =
    (k v : String)
    → (on_other_pod pods pod k v || has_entry old k v)
      ≡ (on_other_pod pods pod k v || has_entry new k v)

unique-same :
    (pods : PodsMap) (pod k : String) (old new : Labels)
    → SameOnNode pods pod old new
    → unique_at pods pod k (lookup k old) none ≡ unique_at pods pod k (lookup k new) none
unique-same pods pod k old new h = go (lookup k old) (lookup k new) refl refl
  where
    go :
        (o n : Option String)
        → lookup k old ≡ o
        → lookup k new ≡ n
        → unique_at pods pod k o none ≡ unique_at pods pod k n none
    go none none p q = refl
    go none (some v) p q = ground (arith, h k v, has_entry_iff old k v, has_entry_iff new k v)
    go (some v) none p q = ground (arith, h k v, has_entry_iff old k v, has_entry_iff new k v)
    go (some v) (some w) p q = ground (
      arith,
      h k v,
      h k w,
      has_entry_iff old k v,
      has_entry_iff new k v,
      has_entry_iff old k w,
      has_entry_iff new k w,
    )

same_unique :
    (pods : PodsMap) (pod k v : String) (old new : Labels)
    → unique_at pods pod k (lookup k old) none ≡ unique_at pods pod k (lookup k new) none
    → (on_other_pod pods pod k v || has_entry old k v)
      ≡ (on_other_pod pods pod k v || has_entry new k v)
same_unique pods pod k v old new h = go (lookup k old) (lookup k new) refl refl h
  where
    go :
        (o n : Option String)
        → lookup k old ≡ o
        → lookup k new ≡ n
        → unique_at pods pod k o none ≡ unique_at pods pod k n none
        → (on_other_pod pods pod k v || has_entry old k v)
          ≡ (on_other_pod pods pod k v || has_entry new k v)
    go none none p q e = unfold has_entry in rw (p, q, has_entry)
    go none (some w) p q e = unfold has_entry in ground arith
    go (some w) none p q e = unfold has_entry in ground arith
    go (some w) (some x) p q e = unfold has_entry in ground arith

-- podLabelsNodeWideChange says false exactly if the pod's new labels leave the node with the labels
-- that it had: each label with its value is on some pod afterwards if and only if it was before. No map has two entries of one key.
pub node_wide_change_iff :
    (pods : PodsMap) (pod : String) (new : Labels)
    → NodupKeys pods
    → NodupKeys (map_at pods pod)
    → NodupKeys new
    → (pod_labels_node_wide_change (some pods) pod new ≡ false)
      ↔ ((k v : String) → has_label (insert pod new pods) k v ≡ has_label pods k v)
unfolding pod_labels_node_wide_change pod_labels_unique lookup
node_wide_change_iff pods pod new u uo un =
    let old = map_at pods pod in
    let equal_iff =
      map_of_strings_equal_iff (unique_loop pods pod old []) (unique_loop pods pod new [])
        (unique_loop-NodupKeys pods pod old [] tt) (unique_loop-NodupKeys pods pod new [] tt) in
    (
      λ h k v.
          has_label-insert pods pod k v new u
          ∙ sym (
              same_unique pods pod k v old new (
                sym (lookup-unique_loop pods pod k old [] uo)
                ∙ equal_iff.0 (not-false _ h) k
                ∙ lookup-unique_loop pods pod k new [] un))
          ∙ sym (has_label-split pods pod k v u),
      λ h. ap not (
          equal_iff.1 λ k.
            lookup-unique_loop pods pod k old [] uo
            ∙ unique-same pods pod k old new (λ k v.
              sym (has_label-split pods pod k v u)
              ∙ sym (h k v)
              ∙ has_label-insert pods pod k v new u)
            ∙ sym (lookup-unique_loop pods pod k new [] un)),
    )
