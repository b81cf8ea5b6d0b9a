-- ===== src/Tests/Pods.antt =====
-- pkg/operator/profilecalculator.go, pod events, at concrete inputs.
use cluster_node_tuning_oper.Base.{
  ◌≢◌, ◌<>◌, none, String, true, false, some, [], ◌∷◌, ◌≡◌, ◌≢◌, refl, ◌∙◌, ap, ◌==◌, ◌↔◌,
  string_eq, nat_eq, option_eq,
}
use cluster_node_tuning_oper.Base.Dict.{lookup, insert, erase, NodupKeys}
use cluster_node_tuning_oper.Util.StringsMap.{
  Labels, map_of_strings_copy, map_of_strings_equal, has_entry,
}
use cluster_node_tuning_oper.Operator.Types.{
  Result, ok, err, not_found, Matches, nil, cons, tuned_match,
}
use cluster_node_tuning_oper.Operator.State.{TunedState, PodsMap, IsWellFormed, map_at}
use cluster_node_tuning_oper.Operator.Match.{profile_matches}
use cluster_node_tuning_oper.Operator.Match.Laws.{Fulfils, profile_matches_iff}
use cluster_node_tuning_oper.Operator.Pods.{
  Pod, pod_change_handler, pod_labels_node_wide_change, pod_labels_unique, on_other_pod,
}
use cluster_node_tuning_oper.Operator.Pods.Unique.{has_label, node_wide_change_iff}
use cluster_node_tuning_oper.Operator.Pods.Handler.{
  pod_change_handler-records, pod_change_handler-no_change, pod_change_handler-others,
}

abbrev web : Labels
web = ("app", "web") ∷ []

abbrev pods : PodsMap
pods = ("ns/a", web) ∷ ("ns/b", web) ∷ []

-- Two pods with one label on the node n1.
abbrev state : TunedState
state = record {
  node_labels = ("n1", ("zone", "a") ∷ []) ∷ [];
  pod_labels = ("n1", pods) ∷ [];
  provider_ids = [];
  bootcmdline = [];
}

state-IsWellFormed : IsWellFormed state
unfolding lookup string_eq
state-IsWellFormed = record {
  node_keys = (refl, tt);
  node_maps = ((refl, tt), tt);
  pod_keys = (refl, tt);
  pod_maps = (((refl, (refl, tt)), ((refl, tt), ((refl, tt), tt))), tt);
}

abbrev rules : Matches
rules = cons (tuned_match (some "app") (some "web") (some "pod") nil) nil

-- The pod is gone.
abbrev gone : String → String → Result Pod
gone namespace name = err not_found

-- The pod runs with other labels.
abbrev relabelled_pod : Pod
relabelled_pod = record { node_name = "n1"; labels = ("app", "db") ∷ [] }

abbrev relabelled : String → String → Result Pod
relabelled namespace name = ok relabelled_pod

profile_matches_iff_example : (profile_matches state "n1" rules ≡ true) ↔ Fulfils state "n1" rules
profile_matches_iff_example = profile_matches_iff state "n1" rules

pods-NodupKeys : NodupKeys pods
unfolding lookup string_eq
pods-NodupKeys = (refl, (refl, tt))

a-NodupKeys : NodupKeys (map_at pods "ns/a")
unfolding lookup string_eq
a-NodupKeys = (refl, tt)

node_wide_change_iff_example :
    (pod_labels_node_wide_change (some pods) "ns/a" [] ≡ false)
    ↔ ((k v : String) → has_label (insert "ns/a" [] pods) k v ≡ has_label pods k v)
node_wide_change_iff_example = node_wide_change_iff pods "ns/a" [] pods-NodupKeys a-NodupKeys tt

relabelled-NodupKeys : NodupKeys relabelled_pod.labels
unfolding lookup string_eq
relabelled-NodupKeys = (refl, tt)

relabelled_scheduled : relabelled_pod.node_name ≢ ""
unfolding string_eq
relabelled_scheduled e = let same : false ≡ true = ap (λ x. x == "") e in cc

pod_change_handler-records_example :
    let (t, node, change, e) = pod_change_handler relabelled state "ns" "a" in
    let pod = "ns" <> ("/" <> "a") in
    (node ≡ relabelled_pod.node_name)
    × (e ≡ none)
    × ((k : String)
        → lookup k (map_at (map_at t.pod_labels node) pod) ≡ lookup k relabelled_pod.labels)
    × ((other : String)
        → other ≢ pod
        → map_at (map_at t.pod_labels node) other ≡ map_at (map_at state.pod_labels node) other)
    × ((n : String) → n ≢ node → map_at t.pod_labels n ≡ map_at state.pod_labels n)
    × (t.node_labels ≡ state.node_labels)
pod_change_handler-records_example =
    pod_change_handler-records relabelled state "ns" "a" state-IsWellFormed relabelled_pod refl
      relabelled_scheduled relabelled-NodupKeys

-- The other pod has the same label, so the node loses nothing.
gone-no_change : (pod_change_handler gone state "ns" "a").2 ≡ false
unfolding pod_change_handler lookup erase insert string_eq has_entry map_of_strings_equal
    pod_labels_unique on_other_pod
gone-no_change = refl

pod_change_handler-no_change_example :
    profile_matches (pod_change_handler gone state "ns" "a").0 "n1" rules
    ≡ profile_matches state "n1" rules
pod_change_handler-no_change_example =
    pod_change_handler-no_change gone state "ns" "a" state-IsWellFormed gone-no_change "n1" rules

relabelled-node : (pod_change_handler relabelled state "ns" "a").1 ≡ "n1"
unfolding pod_change_handler lookup erase insert string_eq has_entry map_of_strings_equal
    map_of_strings_copy nat_eq
relabelled-node = refl

abbrev other : String
other = "n2"

nodes-differ : other ≢ "n1"
unfolding string_eq
nodes-differ e = let same : true ≡ false = ap (λ x. other == x) e in cc

n2-differs : other ≢ (pod_change_handler relabelled state "ns" "a").1
n2-differs e = nodes-differ (e ∙ relabelled-node)

pod_change_handler-others_example :
    profile_matches (pod_change_handler relabelled state "ns" "a").0 "n2" rules
    ≡ profile_matches state "n2" rules
pod_change_handler-others_example =
    pod_change_handler-others relabelled state "ns" "a" state-IsWellFormed "n2" n2-differs rules
