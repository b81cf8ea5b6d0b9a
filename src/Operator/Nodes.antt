-- ===== src/Operator/Nodes.antt =====
-- pkg/operator/profilecalculator.go: node events.
pub mod Handler
use cluster_node_tuning_oper.Base.{
  String, Bool, true, false, not, Option, none, some, List, [], ◌∷◌, ◌==◌, string_eq, if◌then◌else◌,
}
use cluster_node_tuning_oper.Base.Dict.{Dict, lookup, insert, erase}
use cluster_node_tuning_oper.Util.StringsMap.{Labels, map_of_strings_copy, map_of_strings_equal}
use cluster_node_tuning_oper.Operator.Types.{Err, not_found, Result, ok, err}
use cluster_node_tuning_oper.Operator.State.{TunedState, map_at, string_at}

-- What the operator reads of a node.
pub record Node : Type 0 where
  pub name : String
  pub labels : Labels
  pub annotations : Labels
  pub provider_id : String

abbrev pub bootcmdline_key : String
bootcmdline_key = "tuned.openshift.io/bootcmdline"

unfoldable pub node_remove : TunedState → String → TunedState
node_remove s node = record s {
  node_labels = erase node s.node_labels;
  pod_labels = erase node s.pod_labels;
}

-- The three blocks of nodeChangeHandler behind its error branches, each with the `change` flag.
unfoldable pub sync_provider : Node → String → TunedState × Bool → TunedState × Bool
sync_provider n node (s, change) =
    if not (n.provider_id == string_at s.provider_ids node)
    then (record s { provider_ids = insert node n.provider_id s.provider_ids }, true)
    else (s, change)

unfoldable pub sync_bootcmdline : Node → String → TunedState × Bool → TunedState × Bool
sync_bootcmdline n node (s, change) = elim (lookup bootcmdline_key n.annotations) [
  | none ↦ (s, change)
  | some v ↦ (
    record s { bootcmdline = insert node v s.bootcmdline },
    not (string_at s.bootcmdline node == v),
  )
]

unfoldable pub sync_labels : Node → String → TunedState × Bool → TunedState × Bool
sync_labels n node (s, change) =
    let labels_new = map_of_strings_copy n.labels in
    if not (map_of_strings_equal labels_new (map_at s.node_labels node))
    then (record s { node_labels = insert node labels_new s.node_labels }, true)
    else (s, change)

unfoldable pub node_event : TunedState → String → Result Node → TunedState × Bool × Option Err
unfolding node_remove
node_event s node (err not_found) = (node_remove s node, true, some not_found)
node_event s node (ok n) =
    let (s', change) =
      sync_labels n node (sync_bootcmdline n node (sync_provider n node (s, false))) in
    (s', change, none)
node_event s node (err e) = (s, false, some e)

-- The lister of nodes is a parameter.
unfoldable pub node_change_handler :
    (String → Result Node) → TunedState → String → TunedState × Bool × Option Err
unfolding node_event
node_change_handler nodes_get s node = node_event s node (nodes_get node)

-- podLabelsDelete and nodeLabelsDelete forget the labels of all pods and of all nodes.
unfoldable pub pod_labels_delete : TunedState → TunedState
pod_labels_delete s = record s { pod_labels = [] }

unfoldable pub node_labels_delete : TunedState → TunedState
node_labels_delete s = record s { node_labels = [] }

-- nodeLabelsGet: a copy of the labels of a node.
unfoldable pub node_labels_get : (String → Result Node) → String → Result Labels
node_labels_get nodes_get node = elim (nodes_get node) [
  | err e ↦ err e
  | ok n ↦ ok (map_of_strings_copy n.labels)
]
