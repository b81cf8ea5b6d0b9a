-- ===== src/Tests/MachineConfigs.antt =====
-- pkg/operator/controller.go, the MachineConfigs, at concrete inputs.
use cluster_node_tuning_oper.Base.{
  sort, String, Bool, true, false, not, Option, none, some, List, [], ◌∷◌, ◌≡◌, ◌↔◌, refl, ◌==◌,
  ◌&&◌, if◌then◌else◌, any, All, string_eq,
}
use cluster_node_tuning_oper.Base.Dict.{Dict, lookup, NodupKeys}
use cluster_node_tuning_oper.Util.StringsMap.{Labels, map_of_strings_contains, has_entry}
use cluster_node_tuning_oper.Operator.Types.{ok, Tuned, no_operand}
use cluster_node_tuning_oper.Operator.State.{TunedState, new_state}
use cluster_node_tuning_oper.Operator.Nodes.{Node}
use cluster_node_tuning_oper.Operator.Recommend.{tuned_recommend}
use cluster_node_tuning_oper.Operator.Pools.{
  Selectors, Pool, get_pools_for_machine_config_labels_sorted, get_nodes_for_pool,
  get_machine_config_name_for_pools,
}
use cluster_node_tuning_oper.Operator.MachineConfigs.{
  Api, MachineConfig, Synced, version_key, all_nodes_agree_on_bootcmdline, sync_machine_config,
  prune_machine_configs,
}
use cluster_node_tuning_oper.Operator.MachineConfigs.Agree.{
  cmdline, conflicts, all_nodes_agree_on_bootcmdline_iff,
}
use cluster_node_tuning_oper.Operator.MachineConfigs.Sync.{
  Serves, Carries, sync_machine_config-Carries,
}
use cluster_node_tuning_oper.Operator.MachineConfigs.Prune.{
  asks, generated, prune_machine_configs_lem,
}

-- Label selectors that are maps of labels.
abbrev selectors : Selectors
selectors = record {
  LabelSelector = Labels;
  Selector = Labels;
  as_selector = some;
  is_empty = λ s. elim s [ [] ↦ true | _ ∷ _ ↦ false ];
  selects = λ s labels. map_of_strings_contains labels s;
  match_labels = λ labels. labels;
}

abbrev role : String → Labels
role name = ("role", name) ∷ []

abbrev pool : Pool selectors
pool = record {
  name = "worker";
  machine_config_selector = role "worker";
  node_selector = role "worker";
}

abbrev node : String → Node
node name = record { name = name; labels = role "worker"; annotations = []; provider_id = "" }

abbrev nodes : List Node
nodes = node "n1" ∷ node "n2" ∷ []

abbrev state : TunedState
state = record new_state {
  bootcmdline = ("n1", "skew_tick=1 nohz=on") ∷ ("n2", "skew_tick=1 nohz=on") ∷ ("n3", "") ∷ [];
}

abbrev api : Api
api = record { gets = true; creates = true; updates = true; deletes = λ _. true }

api-Serves : Serves api
api-Serves = record { got = refl; created = refl; updated = refl }

one_pool :
    get_pools_for_machine_config_labels_sorted selectors (ok (pool ∷ [])) (role "worker")
    ≡ ok (pool ∷ [])
unfolding get_pools_for_machine_config_labels_sorted map_of_strings_contains string_eq sort
    has_entry lookup
one_pool = refl

fetched : get_nodes_for_pool selectors (λ _. ok nodes) (ok (pool ∷ [])) pool ≡ some (ok nodes)
unfolding get_nodes_for_pool map_of_strings_contains string_eq has_entry lookup
fetched = refl

known : lookup "n1" state.bootcmdline ≡ some "skew_tick=1 nohz=on"
unfolding lookup string_eq
known = refl

same : All (λ m. cmdline state m ≡ "skew_tick=1 nohz=on") nodes
unfolding lookup string_eq
same = (refl, (refl, tt))

all_nodes_agree_on_bootcmdline_iff_example :
    let (agree, conflict) =
      all_nodes_agree_on_bootcmdline state (node "n1" ∷ node "n2" ∷ node "n3" ∷ []) [] in
    ((agree ≡ true)
      ↔ All (λ m. cmdline state (node "n1") ≡ cmdline state m) (node "n2" ∷ node "n3" ∷ []))
    × ((k : String)
        → lookup k conflict ≡ (
            if conflicts state (cmdline state (node "n1")) k (node "n2" ∷ node "n3" ∷ [])
            then some true
            else lookup k []))
all_nodes_agree_on_bootcmdline_iff_example =
    all_nodes_agree_on_bootcmdline_iff state (node "n1") (node "n2" ∷ node "n3" ∷ []) []

abbrev synced : Dict String MachineConfig → Dict String Bool → Option Synced
synced configs conflict =
    sync_machine_config selectors api "v1" (λ _. ok nodes) (ok (pool ∷ [])) state (role "worker")
      "n1" configs conflict

sync_machine_config-Carries_example :
    let name = get_machine_config_name_for_pools selectors (some pool ∷ []) in
    (t : Synced) × (synced [] [] ≡ some t)
    × (t.failed ≡ false)
    × Carries "skew_tick=1 nohz=on" (lookup name t.configs)
    × ((k : String) → (k == name) ≡ false → lookup k t.configs ≡ lookup k [])
    × ((u : Synced) × (synced t.configs t.conflict ≡ some u)
        × (u.wrote ≡ false)
        × (u.failed ≡ false)
        × (u.configs ≡ t.configs))
sync_machine_config-Carries_example =
    sync_machine_config-Carries selectors api "v1" (λ _. ok nodes) (ok (pool ∷ [])) state
      (role "worker") "n1" "skew_tick=1 nohz=on" pool nodes [] [] api-Serves one_pool fetched known
      same

-- One MachineConfig in use, one that is not, and one that is not of the operator.
abbrev config : String → Labels → MachineConfig
config name annotations = record {
  name = name;
  annotations = annotations;
  labels = [];
  config = none;
  kernel_arguments = [];
}

abbrev configs : Dict String MachineConfig
configs =
    ("50-nto-worker", config "50-nto-worker" ((version_key, "v1") ∷ []))
    ∷ ("50-nto-old", config "50-nto-old" ((version_key, "v1") ∷ []))
    ∷ ("99-ssh", config "99-ssh" [])
    ∷ []

configs-NodupKeys : NodupKeys configs
unfolding lookup string_eq
configs-NodupKeys = (refl, (refl, (refl, tt)))

abbrev tuneds : List Tuned
tuneds =
    record {
      name = "default";
      profile = none;
      recommend = some (
          record {
            profile = some "rt";
            priority = some 20;
            rules = none;
            machine_config_labels = some (role "worker");
            operand = no_operand;
          }
          ∷ []);
    }
    ∷ []

abbrev pruned : Dict String MachineConfig × Bool
pruned = prune_machine_configs selectors api (ok (pool ∷ [])) (ok tuneds) (ok configs) configs

prune_machine_configs_lem_example :
    (pruned.1 ≡ false)
    × ((k : String)
        → lookup k pruned.0 ≡ elim (lookup k configs) [
          | none ↦ none
          | some mc ↦
              if generated mc && not (any (asks selectors (pool ∷ []) k) (tuned_recommend tuneds))
              then none
              else some mc
        ])
prune_machine_configs_lem_example =
    prune_machine_configs_lem selectors (pool ∷ []) api tuneds configs configs-NodupKeys (λ _. refl)

-- Labels that no pool has: `pools[0]` of no pools.
no_pool_panics :
    sync_machine_config selectors api "v1"
      (λ _. ok nodes)
      (ok (pool ∷ []))
      state
      (role "infra")
      "n1"
      []
      []
    ≡ none
unfolding sync_machine_config get_pools_for_machine_config_labels_sorted map_of_strings_contains
    string_eq sort has_entry lookup
no_pool_panics = refl
