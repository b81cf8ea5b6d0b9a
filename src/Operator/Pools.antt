-- ===== src/Operator/Pools.antt =====
-- pkg/operator/mc.go and machineConfigLabelsMatch of profilecalculator.go: the MachineConfigPools of a
-- node. Label selectors are those of k8s.io/apimachinery, and are taken as a parameter.
pub mod Laws
use cluster_node_tuning_oper.Base.{
  String, ◌<>◌, Bool, true, false, not, Option, none, some, List, [], ◌∷◌, ◌++◌, ◌&&◌, ◌||◌, ◌==◌,
  string_eq, if◌then◌else◌, any, map, sort, lt_str,
}
use cluster_node_tuning_oper.Util.StringsMap.{Labels}
use cluster_node_tuning_oper.Operator.Types.{Err, api_error, Result, ok, err}
use cluster_node_tuning_oper.Operator.Nodes.{Node}

-- metav1.LabelSelector, labels.Selector, and what the operator calls of them.
pub record Selectors : Type 1 where
  pub LabelSelector : Type 0
  pub Selector : Type 0
  pub as_selector : LabelSelector → Option Selector
  pub is_empty : Selector → Bool
  pub selects : Selector → Labels → Bool
  pub match_labels : Labels → LabelSelector

module _ (S : Selectors) where
  pub record Pool : Type 0 where
    pub name : String
    pub machine_config_selector : S.LabelSelector
    pub node_selector : S.LabelSelector

  -- `!selector.Empty() && selector.Matches(labels)`: an empty selector matches nothing.
  unfoldable pub picks : S.Selector → Labels → Bool
  picks selector labels = not (S.is_empty selector || not (S.selects selector labels))

  -- A pool's selector, where an invalid one is skipped.
  unfoldable pub selector_picks : S.LabelSelector → Labels → Bool
  unfolding picks
  selector_picks ls labels = elim (S.as_selector ls) [
    | none ↦ false
    | some selector ↦ picks selector labels
  ]

  -- The loop of machineConfigLabelsMatch. `none` is a panic, on a nil pool.
  unfoldable pub any_pool_picks : Labels → List (Option Pool) → Option Bool
  unfolding selector_picks
  any_pool_picks labels [] = some false
  any_pool_picks labels (none ∷ pools) = none
  any_pool_picks labels (some p ∷ pools) =
      let rest = any_pool_picks labels pools in
      if selector_picks p.machine_config_selector labels then some true else rest

  -- A nil map and a nil slice are `none`.
  unfoldable pub machine_config_labels_match :
      Option Labels → Option (List (Option Pool)) → Option Bool
  unfolding any_pool_picks
  machine_config_labels_match none pools = some false
  machine_config_labels_match (some labels) none = some false
  machine_config_labels_match (some labels) (some pools) =
      elim (S.as_selector (S.match_labels labels)) [
        | none ↦ some false
        | some _ ↦ any_pool_picks labels pools
      ]

  -- getPoolsForMachineConfigLabels. An invalid selector of any pool gives no pools at all.
  unfoldable pub pools_for_labels : Labels → List Pool → Option (List Pool)
  unfolding picks
  pools_for_labels labels [] = some []
  pools_for_labels labels (p ∷ ps) = elim (S.as_selector p.machine_config_selector) [
    | none ↦ none
    | some selector ↦ elim (pools_for_labels labels ps) [
      | none ↦ none
      | some rest ↦ some (if picks selector labels then p ∷ rest else rest)
    ]
  ]

  unfoldable pub get_pools_for_machine_config_labels :
      Result (List Pool) → Labels → Result (List Pool)
  unfolding pools_for_labels
  get_pools_for_machine_config_labels listed [] = ok []
  get_pools_for_machine_config_labels (err e) (l ∷ ls) = err e
  get_pools_for_machine_config_labels (ok pools) (l ∷ ls) = elim (pools_for_labels (l ∷ ls) pools) [
    | none ↦ ok []
    | some ps ↦ ok ps
  ]

  abbrev pub by_pool_name : Pool → Pool → Bool
  by_pool_name a b = lt_str a.name b.name

  unfoldable pub get_pools_for_machine_config_labels_sorted :
      Result (List Pool) → Labels → Result (List Pool)
  unfolding get_pools_for_machine_config_labels
  get_pools_for_machine_config_labels_sorted listed labels =
      elim (get_pools_for_machine_config_labels listed labels) [
        | err e ↦ err e
        | ok pools ↦ ok (sort by_pool_name pools)
      ]

  -- The first loop of getPoolsForNode: the pools that select the node.
  unfoldable pub pools_selecting : Labels → List Pool → List Pool
  unfolding selector_picks
  pools_selecting labels [] = []
  pools_selecting labels (p ∷ ps) =
      let rest = pools_selecting labels ps in
      if selector_picks p.node_selector labels then p ∷ rest else rest

  pub record Classes : Type 0 where
    pub master : Option Pool
    pub worker : Option Pool
    pub custom : List Pool

  -- The second loop: the variables `master`, `worker` and `custom`.
  unfoldable pub classify : List Pool → Classes → Classes
  classify [] c = c
  classify (p ∷ ps) c = classify ps (
      if p.name == "master"
      then record c { master = some p }
      else if p.name == "worker"
      then record c { worker = some p }
      else record c { custom = c.custom ++ (p ∷ []) })

  -- The pointers that are returned: `none` is the nil slice, and an entry `none` a nil pointer.
  unfoldable pub choose : Classes → Option (List (Option Pool))
  choose c = elim (c.custom) [
    | [] ↦ elim (c.master) [ some m ↦ some (some m ∷ []) | none ↦ some (c.worker ∷ []) ]
    | p ∷ rest ↦ elim rest [
      | _ ∷ _ ↦ none
      | [] ↦
          let worker : List (Option Pool) = elim (c.worker) [ none ↦ [] | some w ↦ some w ∷ [] ] in
          some ((elim (c.master) [ some m ↦ some m | none ↦ some p ]) ∷ worker)
    ]
  ]

  abbrev no_classes : Classes
  no_classes = record { master = none; worker = none; custom = [] }

  unfoldable pub pools_of : List Pool → Option (List (Option Pool))
  unfolding classify choose
  pools_of [] = none
  pools_of (p ∷ ps) = choose (classify (p ∷ ps) no_classes)

  -- The lister of the pools is a parameter.
  unfoldable pub get_pools_for_node :
      Result (List Pool) → Node → Result (Option (List (Option Pool)))
  unfolding pools_of pools_selecting
  get_pools_for_node (err e) node = err e
  get_pools_for_node (ok pools) node = ok (pools_of (pools_selecting node.labels pools))

  -- `pools[0]`, which panics on an empty slice: `none`.
  unfoldable pub get_primary_pool_for_node :
      Result (List Pool) → Node → Option (Result (Option Pool))
  unfolding get_pools_for_node
  get_primary_pool_for_node listed node = elim (get_pools_for_node listed node) [
    | err e ↦ some (err e)
    | ok none ↦ some (ok none)
    | ok (some pools) ↦ elim pools [ [] ↦ none | p ∷ _ ↦ some (ok p) ]
  ]

  -- The loop of getNodesForPool over the nodes that the pool's selector lists.
  unfoldable pub nodes_of_pool : Result (List Pool) → Pool → List Node → Option (List Node)
  unfolding get_primary_pool_for_node
  nodes_of_pool listed pool [] = some []
  nodes_of_pool listed pool (n ∷ ns) = elim (get_primary_pool_for_node listed n) [
    | none ↦ none
    | some (err e) ↦ nodes_of_pool listed pool ns
    | some (ok none) ↦ nodes_of_pool listed pool ns
    | some (ok (some p)) ↦ elim (nodes_of_pool listed pool ns) [
      | none ↦ none
      | some rest ↦ some (if p.name == pool.name then n ∷ rest else rest)
    ]
  ]

  -- The lister of the nodes is a parameter too.
  unfoldable pub get_nodes_for_pool :
      (S.Selector → Result (List Node)) → Result (List Pool) → Pool → Option (Result (List Node))
  unfolding nodes_of_pool
  get_nodes_for_pool nodes_list listed pool = elim (S.as_selector pool.node_selector) [
    | none ↦ some (err api_error)
    | some selector ↦ elim (nodes_list selector) [
      | err e ↦ some (err e)
      | ok nodes ↦ elim (nodes_of_pool listed pool nodes) [ none ↦ none | some ns ↦ some (ok ns) ]
    ]
  ]

  -- GetMachineConfigNameForPools. A nil pool is passed over.
  unfoldable pub pool_names : List (Option Pool) → List String
  pool_names [] = []
  pool_names (none ∷ ps) = pool_names ps
  pool_names (some p ∷ ps) = p.name ∷ pool_names ps

  unfoldable pub get_machine_config_name_for_pools : List (Option Pool) → String
  unfolding pool_names
  get_machine_config_name_for_pools pools = elim (sort lt_str (pool_names pools)) [
    | [] ↦ "50-nto"
    | first ∷ _ ↦ "50-nto" <> ("-" <> first)
  ]
