-- ===== src/Tests/Nodes.antt =====
-- pkg/operator/profilecalculator.go, node events, at concrete inputs.
use cluster_node_tuning_oper.Base.{
  String, true, false, none, some, [], ◌∷◌, ◌≡◌, refl, string_eq, nat_eq, option_eq,
}
use cluster_node_tuning_oper.Base.Dict.{lookup, NodupKeys, insert}
use cluster_node_tuning_oper.Util.StringsMap.{map_of_strings_copy, map_of_strings_equal, has_entry}
use cluster_node_tuning_oper.Operator.Types.{ok}
use cluster_node_tuning_oper.Operator.State.{TunedState, IsWellFormed, map_at, string_at}
use cluster_node_tuning_oper.Operator.Nodes.{Node, bootcmdline_key, node_change_handler}
use cluster_node_tuning_oper.Operator.Nodes.Handler.{
  annotated, node_change_handler-records, node_change_handler-provider_missed,
}

abbrev state : TunedState
state = record {
  node_labels = ("n1", ("zone", "a") ∷ []) ∷ [];
  pod_labels = [];
  provider_ids = ("n1", "aws://1") ∷ [];
  bootcmdline = ("n1", "skew_tick=1") ∷ [];
}

state-IsWellFormed : IsWellFormed state
unfolding lookup string_eq
state-IsWellFormed = record {
  node_keys = (refl, tt);
  node_maps = ((refl, tt), tt);
  pod_keys = tt;
  pod_maps = tt;
}

-- A node with another provider ID, with and without the annotation.
abbrev plain : Node
plain = record {
  name = "n1";
  labels = ("zone", "a") ∷ [];
  annotations = [];
  provider_id = "aws://2";
}

abbrev annotated_node : Node
annotated_node = record plain { annotations = (bootcmdline_key, "skew_tick=1") ∷ [] }

zone-NodupKeys : NodupKeys plain.labels
unfolding lookup string_eq
zone-NodupKeys = (refl, tt)

plain-unannotated : lookup bootcmdline_key plain.annotations ≡ none
unfolding lookup
plain-unannotated = refl

node_change_handler-records_example :
    let (t, change, e) = node_change_handler (λ _. ok annotated_node) state "n1" in
    ((k : String) → lookup k (map_at t.node_labels "n1") ≡ lookup k annotated_node.labels)
    × (string_at t.provider_ids "n1" ≡ "aws://2")
    × (string_at t.bootcmdline "n1" ≡ annotated annotated_node (string_at state.bootcmdline "n1"))
    × (e ≡ none)
node_change_handler-records_example =
    node_change_handler-records (λ _. ok annotated_node) state "n1" state-IsWellFormed
      annotated_node refl zone-NodupKeys

cmdline-annotated : lookup bootcmdline_key annotated_node.annotations ≡ some "skew_tick=1"
unfolding lookup string_eq
cmdline-annotated = refl

cmdline-known : string_at state.bootcmdline "n1" ≡ "skew_tick=1"
unfolding lookup string_eq
cmdline-known = refl

labels-known :
    map_of_strings_equal (map_of_strings_copy annotated_node.labels) (map_at state.node_labels "n1")
    ≡ true
unfolding lookup string_eq map_of_strings_equal map_of_strings_copy has_entry insert nat_eq
    option_eq
labels-known = refl

node_change_handler-provider_missed_example :
    (node_change_handler (λ _. ok annotated_node) state "n1").1 ≡ false
node_change_handler-provider_missed_example =
    node_change_handler-provider_missed (λ _. ok annotated_node) state "n1" state-IsWellFormed
      annotated_node "skew_tick=1" refl cmdline-annotated cmdline-known labels-known
