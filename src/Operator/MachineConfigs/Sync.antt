-- ===== src/Operator/MachineConfigs/Sync.antt =====
-- pkg/operator/controller.go: syncMachineConfig.
use cluster_node_tuning_oper.Operator.MachineConfigs.Agree.{
  cmdline, all_nodes_agree_on_bootcmdline_iff,
}
use cluster_node_tuning_oper.Base.{
  All, sym, ◌∙◌, Option-cases, inl, inr, subst, nat_eq, list_eq, string_eq, String, Bool, true,
  false, ◌≡◌, refl, arith, Option, none, some, List, [], ◌∷◌, ◌==◌,
}
use cluster_node_tuning_oper.Base.Dict.{Dict, lookup, lookup-insert}
use cluster_node_tuning_oper.Util.StringsMap.{Labels}
use cluster_node_tuning_oper.Operator.Types.{Result, ok}
use cluster_node_tuning_oper.Operator.State.{TunedState}
use cluster_node_tuning_oper.Operator.Nodes.{Node}
use cluster_node_tuning_oper.Operator.Pools.{
  Selectors, Pool, get_pools_for_machine_config_labels_sorted, get_nodes_for_pool,
  get_machine_config_name_for_pools,
}
use cluster_node_tuning_oper.Operator.MachineConfigs.{
  version_key, Api, MachineConfig, Synced, arguments_of, all_nodes_agree_on_bootcmdline,
  write_machine_config, sync_machine_config, new_machine_config,
}

-- The calls of the API server succeed.
pub record Serves (api : Api) : Type 0 where
  pub got : api.gets ≡ true
  pub created : api.creates ≡ true
  pub updated : api.updates ≡ true

-- A MachineConfig has the kernel arguments of a command line; there is none only for an empty one.
abbrev pub Carries : String → Option MachineConfig → Type 0
Carries b none = b ≡ ""
Carries b (some mc) = mc.kernel_arguments ≡ arguments_of b

module _ (api : Api) (serves : Serves api) (version name : String) (labels : Labels) (b : String)
    (conflict : Dict String Bool) where
  write_machine_config-Carries :
      (configs : Dict String MachineConfig)
      → let t = write_machine_config api version name labels b configs conflict in
        (t.failed ≡ false)
        × Carries b (lookup name t.configs)
        × ((k : String) → (k == name) ≡ false → lookup k t.configs ≡ lookup k configs)
  unfolding write_machine_config new_machine_config
  write_machine_config-Carries configs =
      let got = serves.got in
      let created = serves.created in
      let updated = serves.updated in
      elim (Option-cases (lookup name configs)) [
        | inl absent ↦
            let at = λ (k : String).
              lookup-insert k name
                (new_machine_config name ((version_key, version) ∷ []) labels (arguments_of b))
                configs in
            (
              ground (arith, absent),
              ground (arith, absent, at name),
              λ k e. ground (arith, absent, at k),
            )
        | inr (mc, found) ↦
            let at = λ (k : String).
              lookup-insert k name
                (record mc {
                  annotations = (version_key, version) ∷ [];
                  kernel_arguments = arguments_of b;
                  config = none;
                })
                configs in
            (
              ground (arith, found),
              ground (arith, found, at name),
              λ k e. ground (arith, found, at k),
            )
      ]

  write_machine_config-again :
      (configs : Dict String MachineConfig)
      → Carries b (lookup name configs)
      → let t = write_machine_config api version name labels b configs conflict in
        (t.wrote ≡ false) × (t.failed ≡ false) × (t.configs ≡ configs)
  unfolding write_machine_config new_machine_config
  write_machine_config-again configs h =
      let got = serves.got in
      elim (Option-cases (lookup name configs)) [
        | inl absent ↦
            let empty = subst (Carries b) absent h in
            (ground (arith, absent), ground (arith, absent), ground (arith, absent))
        | inr (mc, found) ↦
            let same = subst (Carries b) found h in
            (ground (arith, found), ground (arith, found), ground (arith, found))
      ]

-- Nodes that all have one command line agree.
agree_lem :
    (s : TunedState) (b : String) (nodes : List Node) (conflict : Dict String Bool)
    → All (λ m. cmdline s m ≡ b) nodes
    → (all_nodes_agree_on_bootcmdline s nodes conflict).0 ≡ true
agree_lem s b [] conflict h = unfold all_nodes_agree_on_bootcmdline in refl
agree_lem s b (n ∷ ns) conflict (e, h) =
    (all_nodes_agree_on_bootcmdline_iff s n ns conflict).0.1 (same_cmdline ns h)
  where
    same_cmdline :
        (ms : List Node) → All (λ m. cmdline s m ≡ b) ms → All (λ m. cmdline s n ≡ cmdline s m) ms
    same_cmdline [] _ = tt
    same_cmdline (m ∷ ms) (p, ps) = (e ∙ sym p, same_cmdline ms ps)

module _ (S : Selectors) where
  -- Where the API server answers, one pool has the labels, the profile's command line is known and all nodes of the
  -- pool have it, a sync returns without an error and leaves a MachineConfig of the pool's name with the arguments
  -- of the command line, or none only if that is empty; the other MachineConfigs stay. And a second sync then
  -- writes nothing.
  pub sync_machine_config-Carries :
      (api : Api) (version : String) (nodes_list : S.Selector → Result (List Node))
      (listed : Result (List (Pool S))) (s : TunedState) (labels : Labels) (profile b : String)
      (pool : Pool S) (nodes : List Node) (configs : Dict String MachineConfig)
      (conflict : Dict String Bool)
      → Serves api
      → get_pools_for_machine_config_labels_sorted S listed labels ≡ ok (pool ∷ [])
      → get_nodes_for_pool S nodes_list listed pool ≡ some (ok nodes)
      → lookup profile s.bootcmdline ≡ some b
      → All (λ m. cmdline s m ≡ b) nodes
      → let name = get_machine_config_name_for_pools S (some pool ∷ []) in
        (t : Synced) × (sync_machine_config S api version nodes_list listed s labels profile configs
            conflict
          ≡ some t)
        × (t.failed ≡ false)
        × Carries b (lookup name t.configs)
        × ((k : String) → (k == name) ≡ false → lookup k t.configs ≡ lookup k configs)
        × ((u : Synced) × (sync_machine_config S api version nodes_list listed s labels profile
                t.configs t.conflict
              ≡ some u)
            × (u.wrote ≡ false)
            × (u.failed ≡ false)
            × (u.configs ≡ t.configs))
  unfolding sync_machine_config
  sync_machine_config-Carries api version nodes_list listed s labels profile b pool nodes configs
        conflict serves one fetched known same =
      let name = get_machine_config_name_for_pools S (some pool ∷ []) in
      let conflict' = (all_nodes_agree_on_bootcmdline s nodes conflict).1 in
      let t = write_machine_config api version name labels b configs conflict' in
      let conflict'' = (all_nodes_agree_on_bootcmdline s nodes t.conflict).1 in
      let (fine, carries, others) =
        write_machine_config-Carries api serves version name labels b conflict' configs in
      let (quiet, fine', kept) =
        write_machine_config-again api serves version name labels b conflict'' t.configs carries in
      (
        t,
        rw (sync_machine_config, one, fetched, known, agree_lem s b nodes conflict same) refl,
        fine,
        carries,
        others,
        (
          write_machine_config api version name labels b t.configs conflict'',
          rw (sync_machine_config, one, fetched, known, agree_lem s b nodes t.conflict same) refl,
          quiet,
          fine',
          kept,
        ),
      )
