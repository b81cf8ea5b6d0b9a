-- ===== src/Operator/Pools/Laws.antt =====
-- pkg/operator/mc.go: the pools that a node is given to exist and select it, the first of them is the
-- master pool where there is one, and the name of a MachineConfig does not depend on the order of the
-- pools.
use mathlib.Core.List.{Permᴰ}
use mathlib.Core.List.Permᴰ
use cluster_node_tuning_oper.Base.{
  ◌<>◌, Bool, true, false, Option, none, some, List, [], ◌∷◌, ◌++◌, string_eq, lt_str, ◌≡◌, refl,
  ap, arith, subst, sort-eq_of_perm, lt_str_total,
}
use cluster_node_tuning_oper.Operator.Recommend.Laws.{lt_str-IsWeakOrder}
use cluster_node_tuning_oper.Operator.Pools.{
  Selectors, Pool, Classes, classify, choose, pools_of, pool_names,
  get_machine_config_name_for_pools,
}

module _ (S : Selectors) where
  pool_names-cons :
      (a b : Option (Pool S)) (l r : List (Option (Pool S)))
      → a ≡ b
      → Permᴰ (pool_names S l) (pool_names S r)
      → Permᴰ (pool_names S (a ∷ l)) (pool_names S (b ∷ r))
  pool_names-cons a b l r e p =
      subst (λ c. Permᴰ (pool_names S (a ∷ l)) (pool_names S (c ∷ r))) e (go a)
    where
      go : (c : Option (Pool S)) → Permᴰ (pool_names S (c ∷ l)) (pool_names S (c ∷ r))
      go none = unfold pool_names in p
      go (some q) = unfold pool_names in Permᴰ.cons refl p

  pool_names-swap :
      (a b c d : Option (Pool S)) (l : List (Option (Pool S)))
      → a ≡ d
      → b ≡ c
      → Permᴰ (pool_names S (a ∷ b ∷ l)) (pool_names S (c ∷ d ∷ l))
  pool_names-swap a b c d l e f =
      subst (λ x. Permᴰ (pool_names S (a ∷ b ∷ l)) (pool_names S (c ∷ x ∷ l))) e
        (subst (λ x. Permᴰ (pool_names S (a ∷ b ∷ l)) (pool_names S (x ∷ a ∷ l))) f (go a b))
    where
      go : (a b : Option (Pool S)) → Permᴰ (pool_names S (a ∷ b ∷ l)) (pool_names S (b ∷ a ∷ l))
      go none none = unfold pool_names in Permᴰ.refl _
      go none (some q) = unfold pool_names in Permᴰ.refl _
      go (some q) none = unfold pool_names in Permᴰ.refl _
      go (some q) (some r) = unfold pool_names in Permᴰ.swap refl refl

  pool_names-perm :
      {ps qs : List (Option (Pool S))} → Permᴰ ps qs → Permᴰ (pool_names S ps) (pool_names S qs)
  pool_names-perm Permᴰ.nil = Permᴰ.refl _
  pool_names-perm (Permᴰ.cons {a} {b} {l₁ = l} {l₂ = r} e p) =
      pool_names-cons a b l r e (pool_names-perm p)
  pool_names-perm (Permᴰ.swap {a} {b} {a' = c} {b' = d} {l} e f) = pool_names-swap a b c d l e f
  pool_names-perm (Permᴰ.trans p q) = Permᴰ.trans (pool_names-perm p) (pool_names-perm q)

  -- The name of the MachineConfig of some pools does not depend on the order of the pools.
  pub machine_config_name-eq_of_perm :
      {ps qs : List (Option (Pool S))}
      → Permᴰ ps qs
      → get_machine_config_name_for_pools S ps ≡ get_machine_config_name_for_pools S qs
  unfolding get_machine_config_name_for_pools
  machine_config_name-eq_of_perm p =
      ap (λ l. elim l [ [] ↦ "50-nto" | first ∷ _ ↦ "50-nto" <> ("-" <> first) ])
        (sort-eq_of_perm lt_str lt_str-IsWeakOrder (pool_names-perm p)
          (λ x y m n h k. lt_str_total x y h k))

  abbrev filled : Classes S → Bool
  filled c = elim (c.custom) [
    | _ ∷ _ ↦ true
    | [] ↦ elim (c.master) [
      | some _ ↦ true
      | none ↦ elim (c.worker) [ some _ ↦ true | none ↦ false ]
    ]
  ]

  abbrev pub no_nil : List (Option (Pool S)) → Bool
  no_nil [] = true
  no_nil (none ∷ ps) = false
  no_nil (some _ ∷ ps) = no_nil ps

  filled-add :
      (p : Pool S) (c : Classes S) → filled (record c { custom = c.custom ++ (p ∷ []) }) ≡ true
  filled-add p c = go c.custom
    where
      go : (l : List (Pool S)) → filled (record c { custom = l ++ (p ∷ []) }) ≡ true
      go [] = refl
      go (_ ∷ _) = refl

  classify-filled :
      (ps : List (Pool S)) (c : Classes S) → filled c ≡ true → filled (classify S ps c) ≡ true
  unfolding classify
  classify-filled [] c h = h
  classify-filled (p ∷ ps) c h = classify-filled ps _ (ground (arith, filled-add p c))

  classify-cons :
      (p : Pool S) (ps : List (Pool S)) (c : Classes S) → filled (classify S (p ∷ ps) c) ≡ true
  unfolding classify
  classify-cons p ps c = classify-filled ps _ (ground (arith, filled-add p c))

  choose-no_nil :
      (c : Classes S) (l : List (Option (Pool S)))
      → filled c ≡ true
      → choose S c ≡ some l
      → no_nil l ≡ true
  unfolding choose
  choose-no_nil c l h e = ground arith

  -- getPoolsForNode never returns a nil pool: where it takes the worker pool, there is one.
  pub pools_of-no_nil :
      (ps : List (Pool S)) (l : List (Option (Pool S))) → pools_of S ps ≡ some l → no_nil l ≡ true
  unfolding pools_of
  pools_of-no_nil [] l h = cc
  pools_of-no_nil (p ∷ ps) l h = choose-no_nil (classify S (p ∷ ps) _) l (classify-cons p ps _) h
