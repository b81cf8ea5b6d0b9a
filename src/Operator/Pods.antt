-- ===== src/Operator/Pods.antt =====
-- pkg/operator/profilecalculator.go: pod events and the labels of the pods of a node.
pub mod Unique
pub mod Change
pub mod Invariant
pub mod Handler
use cluster_node_tuning_oper.Base.{
  String, ◌<>◌, Bool, true, false, not, Option, none, some, List, [], ◌∷◌, ◌&&◌, ◌||◌, ◌==◌,
  string_eq, nat_eq, any, if◌then◌else◌, length, ltb,
}
use cluster_node_tuning_oper.Base.Dict.{Dict, lookup, insert, erase}
use cluster_node_tuning_oper.Util.StringsMap.{
  Labels, map_of_strings_copy, map_of_strings_equal, has_entry,
}
use cluster_node_tuning_oper.Operator.Types.{Err, not_found, not_scheduled, Result, ok, err}
use cluster_node_tuning_oper.Operator.State.{TunedState, PodsMap, map_at}

-- What the operator reads of a pod.
pub record Pod : Type 0 where
  pub node_name : String
  pub labels : Labels

-- The inner loop of podLabelsUnique: another pod than `pod` has the label with this value.
unfoldable pub on_other_pod : PodsMap → String → String → String → Bool
on_other_pod [] pod key value = false
on_other_pod ((p, labels) ∷ pods) pod key value =
    (not (p == pod) && has_entry labels key value) || on_other_pod pods pod key value

-- The outer loop, over the labels of the pod.
unfoldable pub unique_loop : PodsMap → String → Labels → Labels → Labels
unique_loop pods pod [] unique = unique
unique_loop pods pod ((k, v) ∷ labels) unique =
    unique_loop pods pod labels (if on_other_pod pods pod k v then unique else insert k v unique)

unfoldable pub pod_labels_unique : Option PodsMap → String → Labels → Labels
unfolding unique_loop
pod_labels_unique none pod labels = labels
pod_labels_unique (some pods) pod labels = unique_loop pods pod labels []

unfoldable pub pod_labels_node_wide_change : Option PodsMap → String → Labels → Bool
pod_labels_node_wide_change none pod labels = ltb 0 (length labels)
pod_labels_node_wide_change (some pods) pod labels = not (
    map_of_strings_equal (pod_labels_unique (some pods) pod (map_at pods pod))
      (pod_labels_unique (some pods) pod labels))

-- The two nested loops of podRemove: the map without the pod, the node that it was on, and whether
-- the node lost a label.
unfoldable pub remove_loop : Dict String PodsMap → String → Dict String PodsMap × String × Bool
remove_loop [] pod = ([], "", false)
remove_loop ((node, pods) ∷ nodes) pod =
    let (nodes', found, change) = remove_loop nodes pod in
    elim (lookup pod pods) [
      | some labels ↦
          let pods' = erase pod pods in
          ((node, pods') ∷ nodes, node, ltb 0 (length (pod_labels_unique (some pods') pod labels)))
      | none ↦ ((node, pods) ∷ nodes', found, change)
    ]

unfoldable pub pod_remove : TunedState → String → TunedState × String × Bool
unfolding remove_loop
pod_remove s pod =
    let (labels, node, change) = remove_loop s.pod_labels pod in
    (record s { pod_labels = labels }, node, change)

-- `if podLabels[nodeName] == nil { podLabels[nodeName] = {} }`
unfoldable pub with_node : Dict String PodsMap → String → Dict String PodsMap
with_node labels node = elim (lookup node labels) [ none ↦ insert node [] labels | some _ ↦ labels ]

-- The part of podChangeHandler behind its error branches.
unfoldable pub pod_update :
    TunedState → String → String → Labels → TunedState × String × Bool × Option Err
unfolding with_node
pod_update s pod node labels_new =
    let all = with_node s.pod_labels node in
    let pods = map_at all node in
    if not (map_of_strings_equal labels_new (map_at pods pod))
    then (
      record s { pod_labels = insert node (insert pod labels_new pods) all },
      node,
      pod_labels_node_wide_change (some pods) pod labels_new,
      none,
    )
    else (record s { pod_labels = all }, node, false, none)

-- podLabelsGet: the node of the pod, and a copy of the pod's labels.
unfoldable pub pod_labels_get : Result Pod → Result (String × Labels)
pod_labels_get (err e) = err e
pod_labels_get (ok pod) = ok (pod.node_name, map_of_strings_copy pod.labels)

-- podChangeHandler behind its call of podLabelsGet.
unfoldable pub pod_event :
    TunedState → String → Result (String × Labels) → TunedState × String × Bool × Option Err
unfolding pod_remove pod_update
pod_event s pod (err not_found) =
    let (s', node, change) = pod_remove s pod in (s', node, change, none)
pod_event s pod (ok (node, labels_new)) =
    if node == "" then (s, node, false, some not_scheduled) else pod_update s pod node labels_new
pod_event s pod (err e) = (s, "", false, some e)

-- The lister of pods is a parameter: the pod of a namespace and a name, or an error.
unfoldable pub pod_change_handler :
    (String → String → Result Pod)
    → TunedState
    → String
    → String
    → TunedState × String × Bool × Option Err
unfolding pod_labels_get pod_event
pod_change_handler pods_get s namespace name =
    pod_event s (namespace <> ("/" <> name)) (pod_labels_get (pods_get namespace name))
