-- ===== src/Operator/MachineConfigs/Prune.antt =====
-- pkg/operator/controller.go: pruneMachineConfigs.
use cluster_node_tuning_oper.Operator.Recommend.{tuned_recommend}
use cluster_node_tuning_oper.Operator.Types.{ok, err, TunedRecommend, Tuned}
use cluster_node_tuning_oper.Util.StringsMap.{Labels}
use cluster_node_tuning_oper.Operator.Pools.{
  Selectors, Pool, pools_for_labels, get_pools_for_machine_config_labels,
  get_machine_config_name_for_pools,
}
use cluster_node_tuning_oper.Base.{
  map, any, ◌||◌, Option-cases, inl, inr, string_eq, String, Bool, true, false, not, ◌≡◌, refl,
  arith, none, some, List, [], ◌∷◌, ◌==◌, ◌∙◌, ◌&&◌, if◌then◌else◌, Bool-cases, any,
}
use cluster_node_tuning_oper.Base.Dict.{
  Dict, lookup, insert, erase, lookup-erase, lookup-insert, NodupKeys,
}
use cluster_node_tuning_oper.Operator.MachineConfigs.{
  names_loop, prune_machine_configs, get_machine_config_names_for_tuned, version_key, Api,
  MachineConfig, is_unused, prune_loop,
}

-- An entry of this name is unused.
abbrev pub dropped : Dict String Bool → String → Dict String MachineConfig → Bool
dropped names k ms = any (λ (name, mc). k == name && is_unused names name mc) ms

prune_loop-lookup :
    (api : Api) (names : Dict String Bool) (ms configs : Dict String MachineConfig)
    → ((k : String) → api.deletes k ≡ true)
    → let (configs', failed) = prune_loop api names ms configs in
      (failed ≡ false)
      × ((k : String) → lookup k configs' ≡ (if dropped names k ms then none else lookup k configs))
unfolding prune_loop
prune_loop-lookup api names [] configs d = (refl, λ k. refl)
prune_loop-lookup api names ((name, mc) ∷ ms) configs d =
    elim (Bool-cases (is_unused names name mc)) [
      | inl unused ↦
          let (fine, at) = prune_loop-lookup api names ms (erase name configs) d in
          let del = d name in
          (ground (arith, unused), λ k. ground (arith, unused, at k, lookup-erase k name configs))
      | inr used ↦
          let (fine, at) = prune_loop-lookup api names ms configs d in
          (ground (arith, used), λ k. ground (arith, used, at k))
    ]

-- Whether a MachineConfig has the operator's annotation.
abbrev pub generated : MachineConfig → Bool
generated mc = elim (lookup version_key mc.annotations) [ none ↦ false | some _ ↦ true ]

-- The lookup of a name that is true in the map is true there.
used : Dict String Bool → String → Bool
unfolding lookup
used names k = elim (lookup k names) [ none ↦ false | some u ↦ u ]

unused : (k : String) → used [] k ≡ false
unfolding used lookup
unused k = refl

used-insert :
    (k j : String) (names : Dict String Bool)
    → used (insert j true names) k ≡ (k == j || used names k)
unfolding used
used-insert k j names = ground (arith, lookup-insert k j true names)

is_unused-used :
    (names : Dict String Bool) (k : String) (mc : MachineConfig)
    → is_unused names k mc ≡ (generated mc && not (used names k))
unfolding is_unused used
is_unused-used names k mc = ground arith

dropped-lookup :
    (names : Dict String Bool) (k : String) (ms : Dict String MachineConfig)
    → NodupKeys ms
    → dropped names k ms ≡ elim (lookup k ms) [ none ↦ false | some mc ↦ is_unused names k mc ]
unfolding lookup
dropped-lookup names k [] u = refl
dropped-lookup names k ((j, mc) ∷ ms) (fresh, u) = ground (arith, dropped-lookup names k ms u)

-- Without the unused entry of a name, if its name is not in use.
kept_lem :
    (names : Dict String Bool) (k : String) (configs : Dict String MachineConfig) (asked : Bool)
    → NodupKeys configs
    → used names k ≡ asked
    → (if dropped names k configs then none else lookup k configs) ≡ elim (lookup k configs) [
      | none ↦ none
      | some mc ↦ if generated mc && not asked then none else some mc
    ]
kept_lem names k configs asked u e =
    rw (dropped-lookup names k configs u) (elim (Option-cases (lookup k configs)) [
      | inl absent ↦ rw absent refl
      | inr (mc, found) ↦ rw (found, is_unused-used names k mc, e) refl
    ])

module _ (S : Selectors) (pools : List (Pool S)) where
  -- The name of the MachineConfig that a rule asks for.
  unfoldable pub asks : String → TunedRecommend → Bool
  asks k r = elim r.profile [
    | none ↦ false
    | some _ ↦ elim r.machine_config_labels [
      | none ↦ false
      | some labels ↦ elim (get_pools_for_machine_config_labels S (ok pools) labels) [
        | err _ ↦ false
        | ok ps ↦ k == get_machine_config_name_for_pools S (map some ps)
      ]
    ]
  ]

  pools_ok :
      (labels : Labels)
      → (ps : List (Pool S)) × (get_pools_for_machine_config_labels S (ok pools) labels ≡ ok ps)
  unfolding get_pools_for_machine_config_labels
  pools_ok [] = ([], refl)
  pools_ok (l ∷ ls) = elim (Option-cases (pools_for_labels S (l ∷ ls) pools)) [
    | inl e ↦ ([], rw (get_pools_for_machine_config_labels, e) refl)
    | inr (ps, e) ↦ (ps, rw (get_pools_for_machine_config_labels, e) refl)
  ]

  names_loop-used :
      (rs : List TunedRecommend) (names : Dict String Bool)
      → (names' : Dict String Bool) × (names_loop S (ok pools) rs names ≡ ok names')
        × ((k : String) → used names' k ≡ (any (asks k) rs || used names k))
  unfolding names_loop asks used
  names_loop-used [] names = (names, refl, λ k. refl)
  names_loop-used (r ∷ rs) names = elim (Option-cases r.profile) [
    | inl p ↦
        let (names', run, at) = names_loop-used rs names in
        (names', rw (names_loop, p) run, λ k. rw (asks, p) (at k))
    | inr (_, p) ↦ elim (Option-cases r.machine_config_labels) [
      | inl q ↦
          let (names', run, at) = names_loop-used rs names in
          (names', rw (names_loop, p, q) run, λ k. rw (asks, p, q) (at k))
      | inr (labels, q) ↦
          let (ps, e) = pools_ok labels in
          let name = get_machine_config_name_for_pools S (map some ps) in
          let (names', run, at) = names_loop-used rs (insert name true names) in
          (
            names',
            rw (names_loop, p, q, e) run,
            λ k. rw (asks, p, q, e) (ground (arith, at k, used-insert k name names)),
          )
    ]
  ]

  -- Where all lists are fetched, no two MachineConfigs have one name and the API server deletes what it is asked to, pruning returns no error and removes exactly the MachineConfigs with the
  -- operator's annotation whose name no rule with a profile and labels asks for; the others stay.
  pub prune_machine_configs_lem :
      (api : Api) (ts : List Tuned) (configs : Dict String MachineConfig)
      → NodupKeys configs
      → ((k : String) → api.deletes k ≡ true)
      → let (configs', failed) =
          prune_machine_configs S api (ok pools) (ok ts) (ok configs) configs in
        (failed ≡ false)
        × ((k : String)
            → lookup k configs' ≡ elim (lookup k configs) [
              | none ↦ none
              | some mc ↦
                  if generated mc && not (any (asks k) (tuned_recommend ts)) then none else some mc
            ])
  unfolding prune_machine_configs get_machine_config_names_for_tuned
  prune_machine_configs_lem api ts configs u d =
      let (names, run, at) = names_loop-used (tuned_recommend ts) [] in
      let (fine, left) = prune_loop-lookup api names configs configs d in
      (
        rw (prune_machine_configs, get_machine_config_names_for_tuned, run) fine,
        λ k.
            rw (prune_machine_configs, get_machine_config_names_for_tuned, run)
              (left k
                ∙ kept_lem names k configs (any (asks k) (tuned_recommend ts)) u
                    (ground (arith, at k, unused k))),
      )
