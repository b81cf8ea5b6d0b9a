-- ===== src/Operator/State.antt =====
-- pkg/operator/profilecalculator.go: the state that the profile calculator keeps of nodes and pods.
use cluster_node_tuning_oper.Base.{String, none, some, List, [], string_eq, All}
use cluster_node_tuning_oper.Base.Dict.{Dict, lookup, NodupKeys}
use cluster_node_tuning_oper.Util.StringsMap.{Labels}

-- The labels of the pods of a node, by namespace/name.
abbrev pub PodsMap : Type 0
PodsMap = Dict String Labels

pub record TunedState : Type 0 where
  pub node_labels : Dict String Labels
  pub pod_labels : Dict String PodsMap
  pub provider_ids : Dict String String
  pub bootcmdline : Dict String String

-- NewProfileCalculator's state.
abbrev pub new_state : TunedState
new_state = record { node_labels = []; pod_labels = []; provider_ids = []; bootcmdline = [] }

-- `m[k]` of a map of maps, where a missing map is read as an empty one.
abbrev pub map_at {ℓ} : {A : Type ℓ} → Dict String (List A) → String → List A
map_at m k = elim (lookup k m) [ none ↦ [] | some d ↦ d ]

-- `m[k]` of a map of strings, where a missing string is read as the empty one.
abbrev pub string_at : Dict String String → String → String
string_at m k = elim (lookup k m) [ none ↦ "" | some s ↦ s ]

-- Every map is one of Go: no key has two entries.
abbrev pub IsPodsMap : PodsMap → Type 0
IsPodsMap pods = NodupKeys pods × All (λ (_, labels). NodupKeys labels) pods

pub record IsWellFormed (s : TunedState) : Type 0 where
  pub node_keys : NodupKeys s.node_labels
  pub node_maps : All (λ (_, labels). NodupKeys labels) s.node_labels
  pub pod_keys : NodupKeys s.pod_labels
  pub pod_maps : All (λ (_, pods). IsPodsMap pods) s.pod_labels
