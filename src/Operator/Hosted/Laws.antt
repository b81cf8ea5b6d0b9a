-- ===== src/Operator/Hosted/Laws.antt =====
-- pkg/operator/hypershift.go: what syncHostedClusterTuneds leaves in the hosted cluster.
use cluster_node_tuning_oper.Base.{
  Option-cases, Bool-cases, inl, inr, subst, arith, ◌≡◌, ◌∙◌, refl, sym, ap, ap₂, string_eq, String,
  Bool, true, false, Option, none, some, List, [], ◌∷◌, ◌==◌, if◌then◌else◌,
}
use cluster_node_tuning_oper.Base.Dict.{
  Dict, lookup, insert, erase, NodupKeys, lookup-insert, lookup-erase, insert-NodupKeys,
}
use cluster_node_tuning_oper.Operator.Types.{ok, TunedProfile, TunedRecommend}
use cluster_node_tuning_oper.Operator.Hosted.{
  HostedTuned, Cluster, done, DeepEqual, tuned_map_from_list, in_sync, new_tuned, sync_loop,
  delete_loop, sync_hosted_cluster_tuneds,
}

-- Every call of the API server succeeds.
pub record Serves (api : Cluster) : Type 0 where
  pub created : (k : String) → api.create k ≡ done
  pub updated : (k : String) → api.update k ≡ done
  pub deleted : (k : String) → api.deletes k ≡ true

-- Values that reflect.DeepEqual tells the same are the same.
pub record Sound (eq : DeepEqual) : Type 0 where
  pub profiles : (a b : Option (List TunedProfile)) → eq.profiles a b ≡ true → a ≡ b
  pub recommends : (a b : Option (List TunedRecommend)) → eq.recommends a b ≡ true → a ≡ b

-- What a resource of a ConfigMap becomes in the cluster.
abbrev pub put : HostedTuned → Option HostedTuned → HostedTuned
put cm none = cm
put cm (some hc) = record hc { profile = cm.profile; recommend = cm.recommend }

put-in_sync :
    (eq : DeepEqual)
    → Sound eq
    → (cm hc : HostedTuned) → in_sync eq cm hc ≡ true
    → put cm (some hc) ≡ hc
unfolding in_sync
put-in_sync eq sound cm hc e =
    let p = sound.profiles cm.profile hc.profile (ground arith) in
    let r = sound.recommends cm.recommend hc.recommend (ground arith) in
    ap₂ (λ x y. record hc { profile = x; recommend = y }) p r

-- What the loop over these resources leaves, with what is left of the cluster's map, its resources, and
-- whether there is an error.
abbrev Post :
    Dict String HostedTuned
    → Dict String HostedTuned
    → Dict String HostedTuned
    → Dict String HostedTuned × (Dict String HostedTuned × Bool)
    → Type 0
Post cms left hosted (left', (hosted', failed)) =
    (failed ≡ false)
    × ((k : String)
        → (lookup k left' ≡ elim (lookup k cms) [ none ↦ lookup k left | some _ ↦ none ])
          × (lookup k hosted' ≡ elim (lookup k cms) [
            | none ↦ lookup k hosted
            | some cm ↦ some (put cm (lookup k left))
          ]))

module _ (name : String) (cm : HostedTuned) (left hosted : Dict String HostedTuned) where
  -- What one round does.
  abbrev Step : Dict String HostedTuned → Dict String HostedTuned → Type 0
  Step left' hosted' =
      (k : String)
      → (lookup k left' ≡ (if k == name then none else lookup k left))
        × (lookup k hosted'
            ≡ (if k == name then some (put cm (lookup name left)) else lookup k hosted))

  Step-Post :
      (cms left' hosted' : Dict String HostedTuned)
      (r : Dict String HostedTuned × (Dict String HostedTuned × Bool))
      → lookup name cms ≡ none
      → Step left' hosted'
      → Post cms left' hosted' r
      → Post ((name, cm) ∷ cms) left hosted r
  unfolding lookup
  Step-Post cms left' hosted' r fresh step (fine, at) = (
    fine,
    λ k.
        let (a, b) = at k in
        let (l, t) = step k in
        elim (Bool-cases (k == name)) [
          | inl here ↦
              let e : k ≡ name = ground (arith, here) in
              let f : lookup k cms ≡ none = rw e fresh in
              let gone : lookup k left' ≡ none = ground (arith, l, here) in
              let stored : lookup k hosted' ≡ some (put cm (lookup k left)) =
                subst (λ x. lookup k hosted' ≡ some (put cm (lookup x left))) (sym e)
                  (ground (arith, t, here)) in
              (
                rw here (
                    a
                    ∙ subst (λ c. (elim c [ none ↦ lookup k left' | some _ ↦ none ]) ≡ none) (sym f)
                        gone),
                rw here (
                    b
                    ∙ subst
                        (λ c.
                          (elim c [
                            | none ↦ lookup k hosted'
                            | some m ↦ some (put m (lookup k left'))
                          ])
                          ≡ some (put cm (lookup k left)))
                        (sym f) stored),
              )
          | inr there ↦
              let kept : lookup k left' ≡ lookup k left = ground (arith, l, there) in
              let same : lookup k hosted' ≡ lookup k hosted = ground (arith, t, there) in
              (
                rw there (a ∙ ap (λ v. elim (lookup k cms) [ none ↦ v | some _ ↦ none ]) kept),
                rw there (
                    b
                    ∙ ap₂ (λ v x. elim (lookup k cms) [ none ↦ v | some m ↦ some (put m x) ]) same
                        kept),
              )
        ],
  )

  Step-within :
      (left' hosted' : Dict String HostedTuned)
      → Step left' hosted'
      → ((k : String) (h : HostedTuned) → lookup k left ≡ some h → lookup k hosted ≡ some h)
      → (k : String) (h : HostedTuned) → lookup k left' ≡ some h
      → lookup k hosted' ≡ some h
  Step-within left' hosted' step w k h e =
      let (l, s) = step k in
      elim (Bool-cases (k == name)) [
        | inl here ↦ ground (arith, l, here)
        | inr there ↦ ground (arith, l, s, there, w k h)
      ]

sync_loop-Post :
    (api : Cluster) (eq : DeepEqual) (cms left hosted : Dict String HostedTuned)
    → Serves api
    → Sound eq
    → NodupKeys cms
    → ((k : String) (h : HostedTuned) → lookup k left ≡ some h → lookup k hosted ≡ some h)
    → Post cms left hosted (sync_loop api eq cms left hosted)
unfolding sync_loop lookup new_tuned
sync_loop-Post api eq [] left hosted serves sound u w = (refl, λ k. (refl, refl))
sync_loop-Post api eq ((name, cm) ∷ cms) left hosted serves sound (fresh, u) w =
    let go =
      λ (left' hosted' : Dict String HostedTuned) (step : Step name cm left hosted left' hosted').
        Step-Post name cm left hosted cms left' hosted' (sync_loop api eq cms left' hosted') fresh
          step
          (sync_loop-Post api eq cms left' hosted' serves sound u
            (Step-within name cm left hosted left' hosted' step w)) in
    elim (Option-cases (lookup name left)) [
      | inr (hc, found) ↦ elim (Bool-cases (in_sync eq cm hc)) [
        | inl same ↦
            rw (sync_loop, found, same)
              (go (erase name left) hosted (λ k. (
                lookup-erase k name left,
                elim (Bool-cases (k == name)) [
                  | inl here ↦ rw here (
                      let e : k ≡ name = ground (arith, here) in
                      subst (λ x. lookup x hosted ≡ some (put cm (lookup name left))) (sym e)
                        (w name hc found
                          ∙ rw found (ap some (sym (put-in_sync eq sound cm hc same)))))
                  | inr there ↦ rw there refl
                ],
              )))
        | inr differ ↦
            rw (sync_loop, found, differ, serves.updated name)
              (go (erase name left) (insert name (new_tuned cm hc) hosted) (λ k. (
                lookup-erase k name left,
                rw found (lookup-insert k name (new_tuned cm hc) hosted),
              )))
      ]
      | inl absent ↦
          rw (sync_loop, absent, serves.created name)
            (go left (insert name cm hosted)
              (λ k. (ground (arith, absent), rw absent (lookup-insert k name cm hosted))))
    ]

delete_loop-lookup :
    (api : Cluster) (left hosted : Dict String HostedTuned)
    → Serves api
    → let (hosted', failed) = delete_loop api left hosted in
      (failed ≡ false)
      × ((k : String)
          → lookup k hosted' ≡ elim (lookup k left) [
            | none ↦ lookup k hosted
            | some _ ↦ if k == "default" then lookup k hosted else none
          ])
unfolding delete_loop lookup
delete_loop-lookup api [] hosted serves = (refl, λ k. refl)
delete_loop-lookup api ((name, _) ∷ left) hosted serves = elim (Bool-cases (name == "default")) [
  | inl default ↦
      let (fine, at) = delete_loop-lookup api left hosted serves in
      (ground (arith, default), λ k. ground (arith, default, at k))
  | inr other ↦
      let (fine, at) = delete_loop-lookup api left (erase name hosted) serves in
      let del = serves.deleted name in
      (ground (arith, other), λ k. ground (arith, other, at k, lookup-erase k name hosted))
]

tuned_map_from_list-NodupKeys :
    (ts : List HostedTuned) (m : Dict String HostedTuned)
    → NodupKeys m
    → NodupKeys (tuned_map_from_list ts m)
unfolding tuned_map_from_list
tuned_map_from_list-NodupKeys [] m u = u
tuned_map_from_list-NodupKeys (t ∷ ts) m u =
    tuned_map_from_list-NodupKeys ts (insert t.name t m) (insert-NodupKeys t.name t m u)

-- What the two loops leave of a name.
both_lem :
    (k : String) (wanted listed was left put_back : Option HostedTuned)
    → listed ≡ was
    → left ≡ elim wanted [ none ↦ listed | some _ ↦ none ]
    → put_back ≡ elim wanted [ none ↦ was | some cm ↦ some (put cm listed) ]
    → elim left [ none ↦ put_back | some _ ↦ if k == "default" then put_back else none ]
      ≡ elim wanted [ some cm ↦ some (put cm was) | none ↦ if k == "default" then was else none ]
both_lem k none listed none left put_back s l p = rw (l, s, p) (ground arith)
both_lem k none listed (some h) left put_back s l p = rw (l, s, p) refl
both_lem k (some cm) listed was left put_back s l p = rw (l, p, s) refl

-- Where every call succeeds, the list is that of the cluster's resources, and values that
-- reflect.DeepEqual tells the same are the same, a sync returns no error. A name of a ConfigMap's
-- resource then has its profiles and rules: on the cluster's resource of that name, which keeps its
-- labels, or as it is where there was none. Of the other resources, only the default is left.
pub sync_hosted_cluster_tuneds_lem :
    (api : Cluster) (eq : DeepEqual) (cms hcs : List HostedTuned) (hosted : Dict String HostedTuned)
    → Serves api
    → Sound eq
    → ((k : String) → lookup k (tuned_map_from_list hcs []) ≡ lookup k hosted)
    → let (hosted', failed) = sync_hosted_cluster_tuneds api eq (ok cms) (ok hcs) hosted in
      (failed ≡ false)
      × ((k : String)
          → lookup k hosted' ≡ elim (lookup k (tuned_map_from_list cms [])) [
            | some cm ↦ some (put cm (lookup k hosted))
            | none ↦ if k == "default" then lookup k hosted else none
          ])
unfolding sync_hosted_cluster_tuneds
sync_hosted_cluster_tuneds_lem api eq cms hcs hosted serves sound same =
    let wanted = tuned_map_from_list cms [] in
    let listed = tuned_map_from_list hcs [] in
    let (left, (hosted', failed)) = sync_loop api eq wanted listed hosted in
    let (fine, at) =
      sync_loop-Post api eq wanted listed hosted serves sound
        (tuned_map_from_list-NodupKeys cms [] tt) (λ k h e. sym (same k) ∙ e) in
    let (fine', at') = delete_loop-lookup api left hosted' serves in
    (
      rw (sync_hosted_cluster_tuneds, fine) fine',
      λ k.
          rw (sync_hosted_cluster_tuneds, fine)
            (at' k
              ∙ both_lem k (lookup k wanted) (lookup k listed) (lookup k hosted) (lookup k left)
                  (lookup k hosted') (same k) (at k).0 (at k).1),
    )
