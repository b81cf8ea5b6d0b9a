-- ===== src/Operator/Pods/Handler.antt =====
-- pkg/operator/profilecalculator.go: what podChangeHandler promises to its caller, which calculates
-- the profile of the node that is returned, and only if a change is reported.
use cluster_node_tuning_oper.Base.Dict.{lookup, NodupKeys}
use cluster_node_tuning_oper.Base.{
  none, arith, ◌∙◌, String, false, ◌==◌, string_eq, ◌≡◌, ◌≢◌, ap, Bool-cases, inl, inr, ◌<>◌,
}
use cluster_node_tuning_oper.Util.StringsMap.{Labels, map_of_strings_copy}
use cluster_node_tuning_oper.Util.StringsMap.Laws.{
  map_of_strings_copy-NodupKeys, lookup-map_of_strings_copy,
}
use cluster_node_tuning_oper.Operator.Types.{not_found, Result, ok, err, Matches}
use cluster_node_tuning_oper.Operator.State.{TunedState, IsWellFormed, map_at}
use cluster_node_tuning_oper.Operator.Match.{profile_matches}
use cluster_node_tuning_oper.Operator.Match.Laws.{profile_matches-SameLabels}
use cluster_node_tuning_oper.Operator.Pods.{
  pod_update, Pod, pod_labels_get, pod_event, pod_change_handler,
}
use cluster_node_tuning_oper.Operator.Pods.Unique.{has_label}
use cluster_node_tuning_oper.Operator.Pods.Change.{SameOnPods, label_matches-same}
use cluster_node_tuning_oper.Operator.Pods.Invariant.{
  IsNodesMap, IsSound, unchanged-IsSound, pod_remove-IsSound, pod_update-IsSound,
  pod_update-records, map_at-IsPodsMap,
}

pod_event-IsSound :
    (s : TunedState) (pod : String) (r : Result Pod)
    → IsNodesMap s.pod_labels
    → let (t, node, change, e) = pod_event s pod (pod_labels_get r) in IsSound s t node change
unfolding pod_labels_get pod_event
pod_event-IsSound s pod (err not_found) w = pod_remove-IsSound s pod w
pod_event-IsSound s pod (ok p) w = elim (Bool-cases (p.node_name == "")) [
  | inl e ↦ rw e (unchanged-IsSound s p.node_name false w)
  | inr e ↦ rw e (
      pod_update-IsSound s pod p.node_name (map_of_strings_copy p.labels) w
        (map_of_strings_copy-NodupKeys p.labels))
]
pod_event-IsSound s pod (err e) w = unchanged-IsSound s "" false w

module _ (pods_get : String → String → Result Pod) (s : TunedState) (namespace name : String)
    (w : IsWellFormed s) where
  handled :
      let (t, node, change, e) = pod_change_handler pods_get s namespace name in
      IsSound s t node change
  unfolding pod_change_handler
  handled =
      pod_event-IsSound s (namespace <> ("/" <> name)) (pods_get namespace name)
        (w.pod_keys, w.pod_maps)

  -- A pod event keeps the maps of the calculator well formed: no key has two entries, whatever the
  -- lister returns.
  pod_change_handler-IsWellFormed : IsWellFormed (pod_change_handler pods_get s namespace name).0
  pod_change_handler-IsWellFormed = record {
    node_keys = rw handled.node_labels w.node_keys;
    node_maps = rw handled.node_labels w.node_maps;
    pod_keys = handled.maps.0;
    pod_maps = handled.maps.1;
  }

  matches_kept :
      (node : String) (rules : Matches)
      → SameOnPods
          (map_at (pod_change_handler pods_get s namespace name).0.pod_labels node)
          (map_at s.pod_labels node)
      → profile_matches (pod_change_handler pods_get s namespace name).0 node rules
        ≡ profile_matches s node rules
  matches_kept node rules same =
      profile_matches-SameLabels (pod_change_handler pods_get s namespace name).0 s node rules
        λ label value type.
          label_matches-same (pod_change_handler pods_get s namespace name).0 s node label value
            type (ap (λ d. map_at d node) handled.node_labels)
            (map_at-IsPodsMap _ node handled.maps).1
            (map_at-IsPodsMap s.pod_labels node (w.pod_keys, w.pod_maps)).1 same

  -- If a pod event reports no change, then every tree of rules matches every node as before,
  -- provided that the calculator's maps are well formed.
  pub pod_change_handler-no_change :
      (pod_change_handler pods_get s namespace name).2 ≡ false
      → (node : String) (rules : Matches)
      → profile_matches (pod_change_handler pods_get s namespace name).0 node rules
        ≡ profile_matches s node rules
  pod_change_handler-no_change h node rules = matches_kept node rules (handled.same h node)

  -- A pod event leaves the matching of all the other nodes than the one it returns as it was, provided
  -- that the calculator's maps are well formed.
  pub pod_change_handler-others :
      (node : String)
      → node ≢ (pod_change_handler pods_get s namespace name).1
      → (rules : Matches)
      → profile_matches (pod_change_handler pods_get s namespace name).0 node rules
        ≡ profile_matches s node rules
  pod_change_handler-others node h rules =
      matches_kept node rules (λ k v. ap (λ d. has_label d k v) (handled.others node h))

  updates :
      (p : Pod)
      → pods_get namespace name ≡ ok p
      → p.node_name ≢ ""
      → pod_change_handler pods_get s namespace name
        ≡ pod_update s (namespace <> ("/" <> name)) p.node_name (map_of_strings_copy p.labels)
  unfolding pod_change_handler pod_labels_get pod_event
  updates p got runs = rw (pod_change_handler, got) (ground (arith, runs))

  reported :
      (node : String) (new : Labels)
      → let (t, n, change, e) = pod_update s (namespace <> ("/" <> name)) node new in
        (n ≡ node) × (e ≡ none)
  unfolding pod_update
  reported node new = (ground arith, ground arith)

  -- If the lister returns a pod that runs on a node, then the pod's labels are recorded under its name for that node, which is returned
  -- without an error; those of the node's other pods, those of the pods of the other nodes and those of the nodes stay as they were, provided
  -- that the calculator's maps are well formed and no label of the pod has two entries.
  pub pod_change_handler-records :
      (p : Pod)
      → pods_get namespace name ≡ ok p
      → p.node_name ≢ ""
      → NodupKeys p.labels
      → let (t, node, change, e) = pod_change_handler pods_get s namespace name in
        let pod = namespace <> ("/" <> name) in
        (node ≡ p.node_name)
        × (e ≡ none)
        × ((k : String) → lookup k (map_at (map_at t.pod_labels node) pod) ≡ lookup k p.labels)
        × ((other : String)
            → other ≢ pod
            → map_at (map_at t.pod_labels node) other ≡ map_at (map_at s.pod_labels node) other)
        × ((n : String) → n ≢ node → map_at t.pod_labels n ≡ map_at s.pod_labels n)
        × (t.node_labels ≡ s.node_labels)
  pod_change_handler-records p got runs u =
      let pod = namespace <> ("/" <> name) in
      let new = map_of_strings_copy p.labels in
      let fresh = map_of_strings_copy-NodupKeys p.labels in
      let event = updates p got runs in
      let (at_node, fine) = reported p.node_name new in
      let (labels, kept) =
        pod_update-records s pod p.node_name new (w.pod_keys, w.pod_maps) fresh in
      let sound = pod_update-IsSound s pod p.node_name new (w.pod_keys, w.pod_maps) fresh in
      rw event (
        at_node,
        fine,
        rw at_node (λ k. labels k ∙ lookup-map_of_strings_copy p.labels k u),
        rw at_node kept,
        sound.others,
        sound.node_labels,
      )
