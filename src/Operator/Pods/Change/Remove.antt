-- ===== src/Operator/Pods/Change/Remove.antt =====
-- pkg/operator/profilecalculator.go: what podRemove takes away from the pods of the nodes.
use cluster_node_tuning_oper.Base.{
  String, false, Option, none, some, [], ◌∷◌, string_eq, nat_eq, length, ltb, ◌≡◌, ◌≢◌, refl, sym,
  ◌∙◌, ◌↔◌, arith, All, inl, inr, Option-cases,
}
use cluster_node_tuning_oper.Base.Dict.{
  Dict, lookup, erase, NodupKeys, lookup-erase, All-lookup, length-eq_of_lookup,
}
use cluster_node_tuning_oper.Util.StringsMap.{Labels}
use cluster_node_tuning_oper.Util.StringsMap.Laws.{has_entry_iff}
use cluster_node_tuning_oper.Operator.State.{PodsMap, IsPodsMap, map_at}
use cluster_node_tuning_oper.Operator.Pods.{
  on_other_pod, unique_loop, pod_labels_unique, remove_loop,
}
use cluster_node_tuning_oper.Operator.Pods.Unique.{
  has_label, has_label-split, on_other_pod-absent, lookup-unique_loop, unique_at,
  unique_loop-NodupKeys,
}

has_label-erase :
    (pods : PodsMap) (pod k v : String)
    → NodupKeys pods
    → has_label (erase pod pods) k v ≡ on_other_pod pods pod k v
unfolding on_other_pod has_label erase
has_label-erase [] pod k v u = refl
has_label-erase ((p, l) ∷ pods) pod k v (fresh, u) = ground (arith, has_label-erase pods pod k v u)

on_other_pod-erase :
    (pods : PodsMap) (pod k v : String)
    → NodupKeys pods
    → on_other_pod (erase pod pods) pod k v ≡ on_other_pod pods pod k v
on_other_pod-erase pods pod k v u =
    on_other_pod-absent (erase pod pods) pod k v (lookup-erase pod pod pods ∙ ground arith)
    ∙ has_label-erase pods pod k v u

lookup-of_length : (d : Labels) (k : String) → ltb 0 (length d) ≡ false → lookup k d ≡ none
unfolding lookup
lookup-of_length [] k h = refl
lookup-of_length (_ ∷ d) k h = absurd (ground arith)

-- The labels of a removed pod are unique to it exactly if the node loses one.
removal_iff :
    (pods : PodsMap) (pod : String) (labels : Labels)
    → NodupKeys pods
    → NodupKeys labels
    → lookup pod pods ≡ some labels
    → (ltb 0 (length (pod_labels_unique (some (erase pod pods)) pod labels)) ≡ false)
      ↔ ((k v : String) → has_label (erase pod pods) k v ≡ has_label pods k v)
unfolding pod_labels_unique
removal_iff pods pod labels u ul here = (forth, back)
  where
    rest : PodsMap
    rest = erase pod pods

    unique :
        (k : String)
        → lookup k (unique_loop rest pod labels []) ≡ unique_at rest pod k (lookup k labels) none
    unique k = unfold lookup in lookup-unique_loop rest pod k labels [] ul

    at : map_at pods pod ≡ labels
    at = rw (here, map_at)

    forth :
        ltb 0 (length (unique_loop rest pod labels [])) ≡ false
        → (k v : String) → has_label rest k v ≡ has_label pods k v
    forth h k v =
        let gone = sym (unique k) ∙ lookup-of_length (unique_loop rest pod labels []) k h in
        ground (
          arith,
          gone,
          has_label-erase pods pod k v u,
          has_label-split pods pod k v u,
          on_other_pod-erase pods pod k v u,
          has_entry_iff labels k v,
          at,
        )

    none_left :
        ((k v : String) → has_label rest k v ≡ has_label pods k v)
        → (k : String) (o : Option String) → lookup k labels ≡ o
        → unique_at rest pod k o none ≡ lookup k []
    none_left h k none e = unfold lookup in refl
    none_left h k (some v) e =
        unfold lookup in
        ground (
          arith,
          h k v,
          has_label-erase pods pod k v u,
          has_label-split pods pod k v u,
          on_other_pod-erase pods pod k v u,
          has_entry_iff labels k v,
          at,
        )

    back :
        ((k v : String) → has_label rest k v ≡ has_label pods k v)
        → ltb 0 (length (unique_loop rest pod labels [])) ≡ false
    back h =
        let size : length (unique_loop rest pod labels []) ≡ length {A = String × String} [] =
          length-eq_of_lookup (unique_loop rest pod labels []) []
            (unique_loop-NodupKeys rest pod labels [] tt) tt
            (λ k. unique k ∙ none_left h k (lookup k labels) refl) in
        rw size

-- What the nodes' pods are after the loops of podRemove, at each node.
pub remove_loop-other :
    (nodes : Dict String PodsMap) (pod node : String)
    → node ≢ (remove_loop nodes pod).1
    → map_at (remove_loop nodes pod).0 node ≡ map_at nodes node
unfolding remove_loop lookup
remove_loop-other [] pod node h = refl
remove_loop-other ((n, pods) ∷ nodes) pod node h = ground (arith, remove_loop-other nodes pod node)

-- The loops report no change exactly if every node keeps the labels of its pods.
pub remove_loop-same :
    (nodes : Dict String PodsMap) (pod node k v : String)
    → NodupKeys nodes
    → All (λ (_, pods). IsPodsMap pods) nodes
    → (remove_loop nodes pod).2 ≡ false
    → has_label (map_at (remove_loop nodes pod).0 node) k v ≡ has_label (map_at nodes node) k v
unfolding remove_loop lookup
remove_loop-same [] pod node k v u ps h = refl
remove_loop-same ((n, pods) ∷ nodes) pod node k v (fresh, u) (p, ps) h =
    elim (Option-cases (lookup pod pods)) [
      | inl e ↦ ground (arith, e, remove_loop-same nodes pod node k v u ps)
      | inr (labels, e) ↦ ground (
        arith,
        e,
        (removal_iff pods pod labels p.0 (All-lookup (λ l. NodupKeys l) pods pod labels p.1 e) e).0
            (ground arith) k v,
      )
    ]
