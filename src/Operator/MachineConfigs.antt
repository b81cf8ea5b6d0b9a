-- ===== src/Operator/MachineConfigs.antt =====
-- pkg/operator/controller.go and mc.go: the MachineConfigs with the kernel arguments of a profile. The
-- MachineConfigs of the cluster are a map by name; which calls of the API server succeed is a parameter.
pub mod Agree
pub mod Sync
pub mod Prune
use cluster_node_tuning_oper.Base.{
  nat_eq, list_eq, string_eq, String, Bool, true, false, not, Option, none, some, List, [], ◌∷◌,
  ◌==◌, if◌then◌else◌, utf8, ℕ, map,
}
use cluster_node_tuning_oper.Base.Dict.{Dict, lookup, insert, erase}
use cluster_node_tuning_oper.Util.StringsMap.{Labels}
use cluster_node_tuning_oper.Util.Kernel.{split_kernel_arguments}
use cluster_node_tuning_oper.Operator.Types.{Result, ok, err, Tuned, TunedRecommend}
use cluster_node_tuning_oper.Operator.State.{TunedState, string_at}
use cluster_node_tuning_oper.Operator.Nodes.{Node}
use cluster_node_tuning_oper.Operator.Recommend.{tuned_recommend}
use cluster_node_tuning_oper.Operator.Pools.{
  Selectors, Pool, get_pools_for_machine_config_labels_sorted, get_pools_for_machine_config_labels,
  get_nodes_for_pool, get_machine_config_name_for_pools,
}

-- The fields of a MachineConfig that the operator sets; `config` is the raw Ignition configuration,
-- none for nil.
pub record MachineConfig : Type 0 where
  pub name : String
  pub annotations : Labels
  pub labels : Labels
  pub config : Option (List ℕ)
  pub kernel_arguments : List (List ℕ)

abbrev pub version_key : String
version_key = "tuned.openshift.io/generated-by-controller-version"

-- NewMachineConfig; a nil map is an empty one.
unfoldable pub new_machine_config : String → Labels → Labels → List (List ℕ) → MachineConfig
new_machine_config name annotations labels arguments = record {
  name = name;
  annotations = annotations;
  labels = labels;
  config = none;
  kernel_arguments = arguments;
}

-- The loop of allNodesAgreeOnBootcmdline, with `match` and the map of conflicts.
unfoldable pub agree_loop :
    TunedState → String → List Node → Dict String Bool → Bool → Bool × Dict String Bool
agree_loop s bootcmdline [] conflict matches = (matches, conflict)
agree_loop s bootcmdline (n ∷ ns) conflict matches =
    let differs = not (bootcmdline == string_at s.bootcmdline n.name) in
    agree_loop s bootcmdline ns (if differs then insert n.name true conflict else conflict)
      (if differs then false else matches)

unfoldable pub all_nodes_agree_on_bootcmdline :
    TunedState → List Node → Dict String Bool → Bool × Dict String Bool
all_nodes_agree_on_bootcmdline s [] conflict = (true, conflict)
all_nodes_agree_on_bootcmdline s (n ∷ ns) conflict =
    agree_loop s (string_at s.bootcmdline n.name) ns conflict true

-- SplitKernelArguments, which returns on every text.
unfoldable pub arguments_of : String → List (List ℕ)
arguments_of bootcmdline = elim (split_kernel_arguments (utf8 bootcmdline)) [
  | none ↦ []
  | some args ↦ args
]

-- Which calls of the API server succeed.
pub record Api : Type 0 where
  pub gets : Bool
  pub creates : Bool
  pub updates : Bool
  pub deletes : String → Bool

-- The MachineConfigs and the map of conflicts afterwards, whether something was written, and whether
-- there is an error.
pub record Synced : Type 0 where
  pub configs : Dict String MachineConfig
  pub conflict : Dict String Bool
  pub wrote : Bool
  pub failed : Bool

abbrev unwritten : Dict String MachineConfig → Dict String Bool → Bool → Synced
unwritten configs conflict failed = record {
  configs = configs;
  conflict = conflict;
  wrote = false;
  failed = failed;
}

-- syncMachineConfig from the lookup of the MachineConfig on.
unfoldable pub write_machine_config :
    Api → String → String → Labels → String → Dict String MachineConfig → Dict String Bool → Synced
write_machine_config api version name labels bootcmdline configs conflict =
    let new =
      new_machine_config name ((version_key, version) ∷ []) labels (arguments_of bootcmdline) in
    if not api.gets then unwritten configs conflict true else elim (lookup name configs) [
      | none ↦
          (if bootcmdline == ""
            then unwritten configs conflict false
            else if api.creates
            then record {
              configs = insert name new configs;
              conflict = conflict;
              wrote = true;
              failed = false;
            }
            else unwritten configs conflict true)
      | some mc ↦
          (if mc.kernel_arguments == new.kernel_arguments
            then unwritten configs conflict false
            else if api.updates
            then record {
              configs =
                  insert name
                    (record mc {
                      annotations = new.annotations;
                      kernel_arguments = new.kernel_arguments;
                      config = new.config;
                    })
                    configs;
              conflict = conflict;
              wrote = true;
              failed = false;
            }
            else unwritten configs conflict true)
    ]

module _ (S : Selectors) where
  -- syncMachineConfig for the profile of a node; none where Go panics, as at `pools[0]` of no pools.
  unfoldable pub sync_machine_config :
      Api
      → String
      → (S.Selector → Result (List Node))
      → Result (List (Pool S))
      → TunedState
      → Labels
      → String
      → Dict String MachineConfig
      → Dict String Bool
      → Option Synced
  sync_machine_config api version nodes_list listed s labels profile configs conflict =
      elim (get_pools_for_machine_config_labels_sorted S listed labels) [
        | err e ↦ some (unwritten configs conflict true)
        | ok pools ↦ elim pools [
          | [] ↦ none
          | pool ∷ more ↦ elim more [
            | _ ∷ _ ↦ some (unwritten configs conflict false)
            | [] ↦ elim (get_nodes_for_pool S nodes_list listed pool) [
              | none ↦ none
              | some (err e) ↦ some (unwritten configs conflict true)
              | some (ok nodes) ↦ elim (lookup profile s.bootcmdline) [
                | none ↦ some (unwritten configs conflict false)
                | some bootcmdline ↦
                    let (agree, conflict') = all_nodes_agree_on_bootcmdline s nodes conflict in
                    if agree
                    then some (
                        write_machine_config api version
                          (get_machine_config_name_for_pools S (some pool ∷ [])) labels bootcmdline
                          configs conflict')
                    else some (unwritten configs conflict' false)
              ]
            ]
          ]
        ]
      ]

  -- The loop of getMachineConfigNamesForTuned.
  unfoldable pub names_loop :
      Result (List (Pool S)) → List TunedRecommend → Dict String Bool → Result (Dict String Bool)
  names_loop listed [] names = ok names
  names_loop listed (r ∷ rs) names = elim r.profile [
    | none ↦ names_loop listed rs names
    | some _ ↦ elim r.machine_config_labels [
      | none ↦ names_loop listed rs names
      | some labels ↦ elim (get_pools_for_machine_config_labels S listed labels) [
        | err e ↦ err e
        | ok pools ↦
            names_loop listed rs
              (insert (get_machine_config_name_for_pools S (map some pools)) true names)
      ]
    ]
  ]

-- Whether a MachineConfig has the operator's annotation and is not among the names.
unfoldable pub is_unused : Dict String Bool → String → MachineConfig → Bool
is_unused names name mc = elim (lookup version_key mc.annotations) [
  | none ↦ false
  | some _ ↦ not (elim (lookup name names) [ none ↦ false | some b ↦ b ])
]

-- The loop of pruneMachineConfigs; the flag says whether there is an error, which ends it.
unfoldable pub prune_loop :
    Api
    → Dict String Bool
    → Dict String MachineConfig
    → Dict String MachineConfig
    → Dict String MachineConfig × Bool
prune_loop api names [] configs = (configs, false)
prune_loop api names ((name, mc) ∷ rest) configs = elim (is_unused names name mc) [
  | false ↦ prune_loop api names rest configs
  | true ↦ elim (api.deletes name) [
    | false ↦ (configs, true)
    | true ↦ prune_loop api names rest (erase name configs)
  ]
]

module _ (S : Selectors) where
  unfoldable pub get_machine_config_names_for_tuned :
      Result (List (Pool S)) → Result (List Tuned) → Result (Dict String Bool)
  unfolding names_loop
  get_machine_config_names_for_tuned listed (err e) = err e
  get_machine_config_names_for_tuned listed (ok ts) = names_loop S listed (tuned_recommend ts) []

  unfoldable pub prune_machine_configs :
      Api
      → Result (List (Pool S))
      → Result (List Tuned)
      → Result (Dict String MachineConfig)
      → Dict String MachineConfig
      → Dict String MachineConfig × Bool
  unfolding get_machine_config_names_for_tuned prune_loop
  prune_machine_configs api pools tuneds (err e) configs = (configs, true)
  prune_machine_configs api pools tuneds (ok mcs) configs =
      elim (get_machine_config_names_for_tuned pools tuneds) [
        | err e ↦ (configs, true)
        | ok names ↦ prune_loop api names mcs configs
      ]
