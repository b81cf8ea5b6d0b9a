-- ===== src/Operator/Nodes/Handler.antt =====
-- pkg/operator/profilecalculator.go: what nodeChangeHandler records of a node, and what its flag says.
use cluster_node_tuning_oper.Base.{
  String, Bool, true, false, not, Option, none, some, ◌==◌, string_eq, ◌≡◌, refl, sym, ◌∙◌, ◌↔◌,
  arith, ap, Bool-cases, Option-cases, inl, inr, ◌||◌,
}
use cluster_node_tuning_oper.Base.Dict.{lookup, NodupKeys, lookup-insert, All-lookup}
use cluster_node_tuning_oper.Util.StringsMap.{map_of_strings_copy, map_of_strings_equal}
use cluster_node_tuning_oper.Util.StringsMap.Laws.{
  map_of_strings_copy-NodupKeys, lookup-map_of_strings_copy, map_of_strings_equal_iff,
}
use cluster_node_tuning_oper.Operator.Types.{Result, ok}
use cluster_node_tuning_oper.Operator.State.{TunedState, IsWellFormed, map_at, string_at}
use cluster_node_tuning_oper.Operator.Nodes.{
  Node, bootcmdline_key, sync_provider, sync_bootcmdline, sync_labels, node_change_handler,
}

map_at-NodupKeys :
    (s : TunedState) (node : String) → IsWellFormed s → NodupKeys (map_at s.node_labels node)
map_at-NodupKeys s node w = elim (Option-cases (lookup node s.node_labels)) [
  | inl e ↦ rw (e, map_at) tt
  | inr (labels, e) ↦
      rw (e, map_at) (All-lookup (λ l. NodupKeys l) s.node_labels node labels w.node_maps e)
]

-- The labels of the state are kept or they are the copy, and either way they are the node's.
labels_recorded :
    (s : TunedState) (n : Node) (node k : String) (change : Bool)
    → NodupKeys n.labels
    → NodupKeys (map_at s.node_labels node)
    → lookup k (map_at (sync_labels n node (s, change)).0.node_labels node) ≡ lookup k n.labels
unfolding sync_labels
labels_recorded s n node k change u us =
    elim (Bool-cases
      (map_of_strings_equal (map_of_strings_copy n.labels) (map_at s.node_labels node))) [
        | inl e ↦ rw e (
            sym (
              (map_of_strings_equal_iff (map_of_strings_copy n.labels) (map_at s.node_labels node)
                  (map_of_strings_copy-NodupKeys n.labels) us).0
                e k)
            ∙ lookup-map_of_strings_copy n.labels k u)
        | inr e ↦ rw e (
            ap (λ d. lookup k d) (rw (lookup-insert, map_at) (ground arith))
            ∙ lookup-map_of_strings_copy n.labels k u)
      ]

sync_labels-others :
    (n : Node) (node : String) (s : TunedState) (change : Bool)
    → ((sync_labels n node (s, change)).0.provider_ids ≡ s.provider_ids)
      × ((sync_labels n node (s, change)).0.bootcmdline ≡ s.bootcmdline)
      × ((sync_labels n node (s, change)).0.pod_labels ≡ s.pod_labels)
unfolding sync_labels
sync_labels-others n node s change = ground arith

sync_bootcmdline-others :
    (n : Node) (node : String) (s : TunedState) (change : Bool)
    → ((sync_bootcmdline n node (s, change)).0.provider_ids ≡ s.provider_ids)
      × ((sync_bootcmdline n node (s, change)).0.node_labels ≡ s.node_labels)
      × ((sync_bootcmdline n node (s, change)).0.pod_labels ≡ s.pod_labels)
unfolding sync_bootcmdline
sync_bootcmdline-others n node s change = ground arith

sync_provider-others :
    (n : Node) (node : String) (s : TunedState) (change : Bool)
    → ((sync_provider n node (s, change)).0.node_labels ≡ s.node_labels)
      × ((sync_provider n node (s, change)).0.bootcmdline ≡ s.bootcmdline)
      × ((sync_provider n node (s, change)).0.pod_labels ≡ s.pod_labels)
unfolding sync_provider
sync_provider-others n node s change = ground arith

provider_recorded :
    (n : Node) (node : String) (s : TunedState) (change : Bool)
    → string_at (sync_provider n node (s, change)).0.provider_ids node ≡ n.provider_id
unfolding sync_provider
provider_recorded n node s change =
    ground (arith, lookup-insert node node n.provider_id s.provider_ids)

-- The kernel command line in the annotation of the node, or else the old one.
abbrev pub annotated : Node → String → String
annotated n old = elim (lookup bootcmdline_key n.annotations) [ none ↦ old | some v ↦ v ]

bootcmdline_recorded :
    (n : Node) (node : String) (s : TunedState) (change : Bool)
    → string_at (sync_bootcmdline n node (s, change)).0.bootcmdline node
      ≡ annotated n (string_at s.bootcmdline node)
unfolding sync_bootcmdline
bootcmdline_recorded n node s change = go (lookup bootcmdline_key n.annotations) refl
  where
    go :
        (o : Option String)
        → lookup bootcmdline_key n.annotations ≡ o
        → string_at (sync_bootcmdline n node (s, change)).0.bootcmdline node
          ≡ annotated n (string_at s.bootcmdline node)
    go none h = rw (h, sync_bootcmdline, annotated)
    go (some v) h =
        rw (h, sync_bootcmdline, annotated)
          (ground (arith, lookup-insert node node v s.bootcmdline))

module _ (s : TunedState) (node : String) (n : Node) where
  abbrev first : TunedState × Bool
  first = sync_provider n node (s, false)

  abbrev second : TunedState × Bool
  second = sync_bootcmdline n node first

  abbrev third : TunedState × Bool
  third = sync_labels n node second

  labels_before : map_at second.0.node_labels node ≡ map_at s.node_labels node
  labels_before =
      ap (λ d. map_at d node)
        ((sync_bootcmdline-others n node first.0 first.1).1
          ∙ (sync_provider-others n node s false).0)

  event_records :
      IsWellFormed s
      → NodupKeys n.labels
      → ((k : String) → lookup k (map_at third.0.node_labels node) ≡ lookup k n.labels)
        × (string_at third.0.provider_ids node ≡ n.provider_id)
        × (string_at third.0.bootcmdline node ≡ annotated n (string_at s.bootcmdline node))
  event_records w u = (
    λ k.
        labels_recorded second.0 n node k second.1 u (rw labels_before (map_at-NodupKeys s node w)),
    ap (λ d. string_at d node)
          ((sync_labels-others n node second.0 second.1).0
            ∙ (sync_bootcmdline-others n node first.0 first.1).0)
        ∙ provider_recorded n node s false,
    ap (λ d. string_at d node) (sync_labels-others n node second.0 second.1).1
        ∙ bootcmdline_recorded n node first.0 first.1
        ∙ ap (λ d. annotated n (string_at d node)) (sync_provider-others n node s false).1,
  )

  -- What the flag says of the labels.
  labels_flag :
      (b : Bool) (t : TunedState)
      → (sync_labels n node (t, b)).1 ≡ (
          b
          || not (map_of_strings_equal (map_of_strings_copy n.labels) (map_at t.node_labels node)))
  unfolding sync_labels
  labels_flag b t = ground arith

  third_flag : third.1 ≡ (
      second.1
      || not (map_of_strings_equal (map_of_strings_copy n.labels) (map_at s.node_labels node)))
  third_flag =
      labels_flag second.1 second.0
      ∙ ap (λ d. second.1 || not (map_of_strings_equal (map_of_strings_copy n.labels) d))
          labels_before

  provider_flag :
      lookup bootcmdline_key n.annotations ≡ none
      → second.1 ≡ not (n.provider_id == string_at s.provider_ids node)
  unfolding sync_bootcmdline sync_provider
  provider_flag h = rw (h, sync_bootcmdline) (ground arith)

  cmdline_flag :
      (v : String)
      → lookup bootcmdline_key n.annotations ≡ some v
      → second.1 ≡ not (string_at s.bootcmdline node == v)
  unfolding sync_bootcmdline
  cmdline_flag v h =
      rw (h, sync_bootcmdline)
        (ap (λ d. not (string_at d node == v)) (sync_provider-others n node s false).1)

  equal_flag :
      IsWellFormed s
      → NodupKeys n.labels
      → (map_of_strings_equal (map_of_strings_copy n.labels) (map_at s.node_labels node) ≡ true)
        ↔ ((k : String) → lookup k n.labels ≡ lookup k (map_at s.node_labels node))
  equal_flag w u =
      let i =
        map_of_strings_equal_iff (map_of_strings_copy n.labels) (map_at s.node_labels node)
          (map_of_strings_copy-NodupKeys n.labels) (map_at-NodupKeys s node w) in
      (
        λ h k. sym (lookup-map_of_strings_copy n.labels k u) ∙ i.0 h k,
        λ h. i.1 (λ k. lookup-map_of_strings_copy n.labels k u ∙ h k),
      )

module _ (nodes_get : String → Result Node) (s : TunedState) (node : String)
    (w : IsWellFormed s) where
  -- After an event for a node that exists, with maps that have one entry for a key, the state holds the node's labels, its provider ID and
  -- the kernel command line of its annotation, or else the old one. No error is returned.
  pub node_change_handler-records :
      (n : Node)
      → nodes_get node ≡ ok n
      → NodupKeys n.labels
      → let (t, change, e) = node_change_handler nodes_get s node in
        ((k : String) → lookup k (map_at t.node_labels node) ≡ lookup k n.labels)
        × (string_at t.provider_ids node ≡ n.provider_id)
        × (string_at t.bootcmdline node ≡ annotated n (string_at s.bootcmdline node))
        × (e ≡ none)
  unfolding node_change_handler
  node_change_handler-records n e u = rw e (
      let (labels, provider, cmdline) = event_records s node n w u in
      (labels, provider, cmdline, refl))

  -- For a node that exists, with no kernel command line annotation, and maps that have one entry for a
  -- key, no change is reported exactly if the provider
  -- ID and the labels are those that the state has.
  pub node_change_handler-flag :
      (n : Node)
      → nodes_get node ≡ ok n
      → NodupKeys n.labels
      → lookup bootcmdline_key n.annotations ≡ none
      → ((node_change_handler nodes_get s node).1 ≡ false) ↔ (
          (n.provider_id ≡ string_at s.provider_ids node)
          × ((k : String) → lookup k n.labels ≡ lookup k (map_at s.node_labels node)))
  unfolding node_change_handler
  node_change_handler-flag n e u h =
      let equal = equal_flag s node n w u in
      rw e (
        λ f.
            let (same_id, same_labels) : (n.provider_id ≡ string_at s.provider_ids node)
                × (map_of_strings_equal (map_of_strings_copy n.labels) (map_at s.node_labels node)
                    ≡ true) =
              ground (arith, third_flag s node n, provider_flag s node n h) in
            (same_id, equal.0 same_labels),
        λ p.
            let same_labels = equal.1 p.1 in
            ground (arith, third_flag s node n, provider_flag s node n h),
      )

  -- The flag misses a new provider ID: for a node whose annotation and labels are those that the
  -- state has, no change is reported, whatever its provider ID is.
  pub node_change_handler-provider_missed :
      (n : Node) (v : String)
      → nodes_get node ≡ ok n
      → lookup bootcmdline_key n.annotations ≡ some v
      → string_at s.bootcmdline node ≡ v
      → map_of_strings_equal (map_of_strings_copy n.labels) (map_at s.node_labels node) ≡ true
      → (node_change_handler nodes_get s node).1 ≡ false
  unfolding node_change_handler
  node_change_handler-provider_missed n v e a b c =
      rw e (third_flag s node n ∙ rw (c, cmdline_flag s node n v a) (ground arith))
