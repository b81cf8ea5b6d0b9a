-- ===== src/Operator/Pods/Invariant.antt =====
-- pkg/operator/profilecalculator.go: pod events keep the calculator's maps well formed, and an event
-- that reports no change changes no profile match.
use cluster_node_tuning_oper.Base.{
  String, Bool, false, none, some, [], ◌∷◌, string_eq, nat_eq, ◌≡◌, ◌≢◌, refl, sym, ◌∙◌, arith, All,
  ap, Bool-cases, inl, inr, Option-cases,
}
use cluster_node_tuning_oper.Base.Dict.{
  Dict, lookup, insert, NodupKeys, lookup-insert, insert-NodupKeys, erase-NodupKeys, All-lookup,
  All-insert, All-erase,
}
use cluster_node_tuning_oper.Util.StringsMap.{Labels, map_of_strings_equal}
use cluster_node_tuning_oper.Util.StringsMap.Laws.{map_of_strings_equal_iff}
use cluster_node_tuning_oper.Operator.State.{TunedState, PodsMap, IsPodsMap, map_at}
use cluster_node_tuning_oper.Operator.Pods.{
  remove_loop, pod_remove, with_node, pod_update, pod_labels_node_wide_change,
}
use cluster_node_tuning_oper.Operator.Pods.Unique.{has_label, node_wide_change_iff}
use cluster_node_tuning_oper.Operator.Pods.Change.{SameOnPods}
use cluster_node_tuning_oper.Operator.Pods.Change.Remove.{remove_loop-other, remove_loop-same}

abbrev pub IsNodesMap : Dict String PodsMap → Type 0
IsNodesMap d = NodupKeys d × All (λ (_, pods). IsPodsMap pods) d

pub map_at-IsPodsMap :
    (d : Dict String PodsMap) (node : String) → IsNodesMap d → IsPodsMap (map_at d node)
map_at-IsPodsMap d node (u, ps) = elim (Option-cases (lookup node d)) [
  | inl e ↦ rw (e, map_at) (tt, tt)
  | inr (pods, e) ↦ rw (e, map_at) (All-lookup (λ p. IsPodsMap p) d node pods ps e)
]

map_at-LabelsNodup : (pods : PodsMap) (pod : String) → IsPodsMap pods → NodupKeys (map_at pods pod)
map_at-LabelsNodup pods pod (u, ls) = elim (Option-cases (lookup pod pods)) [
  | inl e ↦ rw (e, map_at) tt
  | inr (labels, e) ↦ rw (e, map_at) (All-lookup (λ l. NodupKeys l) pods pod labels ls e)
]

with_node-IsNodesMap :
    (d : Dict String PodsMap) (node : String) → IsNodesMap d → IsNodesMap (with_node d node)
unfolding with_node
with_node-IsNodesMap d node (u, ps) = elim (Option-cases (lookup node d)) [
  | inl e ↦
      rw (e, with_node)
        (insert-NodupKeys node [] d u, All-insert (λ p. IsPodsMap p) node [] d (tt, tt) ps)
  | inr (pods, e) ↦ rw (e, with_node) (u, ps)
]

map_at-with_node :
    (d : Dict String PodsMap) (node n : String) → map_at (with_node d node) n ≡ map_at d n
unfolding with_node
map_at-with_node d node n = ground (arith, lookup-insert n node [] d)

remove_loop-absent :
    (d : Dict String PodsMap) (pod n : String)
    → lookup n d ≡ none
    → lookup n (remove_loop d pod).0 ≡ none
unfolding remove_loop lookup
remove_loop-absent [] pod n h = refl
remove_loop-absent ((m, pods) ∷ d) pod n h = ground (arith, remove_loop-absent d pod n)

remove_loop-IsNodesMap :
    (d : Dict String PodsMap) (pod : String) → IsNodesMap d → IsNodesMap (remove_loop d pod).0
unfolding remove_loop
remove_loop-IsNodesMap [] pod w = (tt, tt)
remove_loop-IsNodesMap ((n, pods) ∷ d) pod ((fresh, u), (p, ps)) =
    let (u', ps') = remove_loop-IsNodesMap d pod (u, ps) in
    elim (Option-cases (lookup pod pods)) [
      | inl e ↦ rw (e, remove_loop) ((remove_loop-absent d pod n fresh, u'), (p, ps'))
      | inr (labels, e) ↦
          rw (e, remove_loop)
            (
              (fresh, u),
              ((erase-NodupKeys pod pods p.0, All-erase (λ l. NodupKeys l) pod pods p.1), ps),
            )
    ]

-- What an event may do to the state: `node` is the node that it reports, `change` what it says.
pub record IsSound (s t : TunedState) (node : String) (change : Bool) : Type 0 where
  pub maps : IsNodesMap t.pod_labels
  pub node_labels : t.node_labels ≡ s.node_labels
  pub others : (n : String) → n ≢ node → map_at t.pod_labels n ≡ map_at s.pod_labels n
  pub same :
      change ≡ false → (n : String) → SameOnPods (map_at t.pod_labels n) (map_at s.pod_labels n)

pub unchanged-IsSound :
    (s : TunedState) (node : String) (change : Bool)
    → IsNodesMap s.pod_labels
    → IsSound s s node change
unchanged-IsSound s node change w = record {
  maps = w;
  node_labels = refl;
  others = λ n h. refl;
  same = λ h n k v. refl;
}

pub pod_remove-IsSound :
    (s : TunedState) (pod : String)
    → IsNodesMap s.pod_labels
    → IsSound s (pod_remove s pod).0 (pod_remove s pod).1 (pod_remove s pod).2
unfolding pod_remove
pod_remove-IsSound s pod w = record {
  maps = remove_loop-IsNodesMap s.pod_labels pod w;
  node_labels = refl;
  others = λ n h. remove_loop-other s.pod_labels pod n h;
  same = λ h n k v. remove_loop-same s.pod_labels pod n k v w.0 w.1 h;
}

module _ (s : TunedState) (pod node : String) (new : Labels) (w : IsNodesMap s.pod_labels)
    (un : NodupKeys new) where
  before : PodsMap
  before = map_at (with_node s.pod_labels node) node

  before-IsPodsMap : IsPodsMap before
  unfolding before
  before-IsPodsMap =
      map_at-IsPodsMap (with_node s.pod_labels node) node (with_node-IsNodesMap s.pod_labels node w)

  written : Dict String PodsMap
  written = insert node (insert pod new before) (with_node s.pod_labels node)

  map_at-written : (n : String) → n ≢ node → map_at written n ≡ map_at s.pod_labels n
  unfolding written
  map_at-written n h =
      rw (lookup-insert, map_at) (ground (arith, h, map_at-with_node s.pod_labels node n))

  map_at-written_self : map_at written node ≡ insert pod new before
  unfolding written
  map_at-written_self = rw (lookup-insert, map_at) (ground arith)

  written-same :
      pod_labels_node_wide_change (some before) pod new ≡ false
      → (n : String) → SameOnPods (map_at written n) (map_at s.pod_labels n)
  written-same h n k v = go (string_eq.dec n node)
    where
      go : Dec (n ≡ node) → has_label (map_at written n) k v ≡ has_label (map_at s.pod_labels n) k v
      go (yes e) = rw e (
          ap (λ d. has_label d k v) map_at-written_self
          ∙ (node_wide_change_iff before pod new before-IsPodsMap.0
                (map_at-LabelsNodup before pod before-IsPodsMap) un).0
              h k v
          ∙ unfold before in ap (λ d. has_label d k v) (map_at-with_node s.pod_labels node node))
      go (no d) = ap (λ d. has_label d k v) (map_at-written n d)

  written-IsNodesMap : IsNodesMap written
  unfolding written
  written-IsNodesMap =
      let (u, ps) = with_node-IsNodesMap s.pod_labels node w in
      (
        insert-NodupKeys node (insert pod new before) (with_node s.pod_labels node) u,
        All-insert (λ p. IsPodsMap p) node (insert pod new before) (with_node s.pod_labels node)
            (
              insert-NodupKeys pod new before before-IsPodsMap.0,
              All-insert (λ l. NodupKeys l) pod new before un before-IsPodsMap.1,
            )
            ps,
      )

  pub pod_update-IsSound :
      IsSound s
        (pod_update s pod node new).0
        (pod_update s pod node new).1
        (pod_update s pod node new).2
  unfolding pod_update before written
  pod_update-IsSound = elim (Bool-cases (map_of_strings_equal new (map_at before pod))) [
    | inl e ↦ rw e (record {
      maps = with_node-IsNodesMap s.pod_labels node w;
      node_labels = refl;
      others = λ n h. map_at-with_node s.pod_labels node n;
      same = λ h n k v. ap (λ d. has_label d k v) (map_at-with_node s.pod_labels node n);
    })
    | inr e ↦ rw e (record {
      maps = written-IsNodesMap;
      node_labels = refl;
      others = map_at-written;
      same = written-same;
    })
  ]

  pub pod_update-records :
      let m = map_at (pod_update s pod node new).0.pod_labels node in
      ((k : String) → lookup k (map_at m pod) ≡ lookup k new)
      × ((other : String) → other ≢ pod → map_at m other ≡ map_at (map_at s.pod_labels node) other)
  unfolding pod_update before written
  pod_update-records =
      let same = map_at-with_node s.pod_labels node node in
      elim (Bool-cases (map_of_strings_equal new (map_at before pod))) [
        | inl e ↦ rw e (
          λ k. sym (
              (map_of_strings_equal_iff new (map_at before pod) un
                  (map_at-LabelsNodup before pod before-IsPodsMap)).0
                e k),
          λ other h. ap (λ (m : PodsMap). map_at m other) same,
        )
        | inr e ↦ rw e (
          λ k. rw map_at-written_self (rw (lookup-insert, map_at) (ground arith)),
          λ other h. rw map_at-written_self (rw (lookup-insert, map_at) (ground (arith, h, same))),
        )
      ]
