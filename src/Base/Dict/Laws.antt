-- ===== src/Base/Dict/Laws.antt =====
-- What a lookup finds after each operation.
use mathlib.Core.Path.{◌≡◌, refl}
use mathlib.Core.Option.{none, some}
use mathlib.Core.List.{[], ◌∷◌}
use mathlib.Core.Path.{subst}
use mathlib.Core.Logic.{inl, inr}
use mathlib.Core.Option.{none-ne-some, some-injective}
use cluster_node_tuning_oper.Base.Lists.{All}
use native.Mathlib.Omega.{arith}
use cluster_node_tuning_oper.Base.Tests.{if◌then◌else◌, Bool-cases}
use cluster_node_tuning_oper.Base.Equality.{Eq, ◌==◌}
use cluster_node_tuning_oper.Base.Dict.Defs.{Dict, lookup, insert, erase, NodupKeys}

module _ {ℓ κ} {K : Type ℓ} {V : Type κ} ⦃e : Eq K⦄ where
  pub lookup-cons :
      (j k : K) (v : V) (d : Dict K V)
      → lookup j ((k, v) ∷ d) ≡ (if j == k then some v else lookup j d)
  unfolding lookup
  lookup-cons j k v d = refl

  pub lookup-insert :
      (j k : K) (v : V) (d : Dict K V)
      → lookup j (insert k v d) ≡ (if j == k then some v else lookup j d)
  unfolding insert lookup
  lookup-insert j k v [] = refl
  lookup-insert j k v (_ ∷ d) = ground (arith, lookup-insert j k v d)

  pub lookup-erase :
      (j k : K) (d : Dict K V) → lookup j (erase k d) ≡ (if j == k then none else lookup j d)
  unfolding erase lookup
  lookup-erase j k [] = ground arith
  lookup-erase j k (_ ∷ d) = ground (arith, lookup-erase j k d)

  pub insert-NodupKeys : (k : K) (v : V) (d : Dict K V) → NodupKeys d → NodupKeys (insert k v d)
  unfolding insert
  insert-NodupKeys k v [] u = (lookup-nil k, tt)
    where
      lookup-nil : (k : K) → lookup {V = V} k [] ≡ none
      lookup-nil k = unfold lookup in refl
  insert-NodupKeys k v ((j, _) ∷ d) (fresh, u) =
      ground (arith, insert-NodupKeys k v d u, lookup-insert j k v d)

  pub erase-NodupKeys : (k : K) (d : Dict K V) → NodupKeys d → NodupKeys (erase k d)
  unfolding erase
  erase-NodupKeys k [] u = tt
  erase-NodupKeys k ((j, _) ∷ d) (fresh, u) =
      ground (arith, erase-NodupKeys k d u, lookup-erase j k d)

  -- What holds of every value holds of a value that is found.
  pub All-lookup {μ} :
      (P : V → Type μ) (d : Dict K V) (k : K) (v : V)
      → All (λ (_, w). P w) d
      → lookup k d ≡ some v
      → P v
  unfolding lookup
  All-lookup P [] k v h e = absurd (none-ne-some v e)
  All-lookup P ((j, w) ∷ d) k v (p, ps) e = elim (Bool-cases (k == j)) [
    | inl q ↦ subst P (some-injective w v (unfold lookup in (rw q at e))) p
    | inr q ↦ All-lookup P d k v ps (rw q at e)
  ]

  pub All-insert {μ} :
      (P : V → Type μ) (k : K) (v : V) (d : Dict K V)
      → P v
      → All (λ (_, w). P w) d
      → All (λ (_, w). P w) (insert k v d)
  unfolding insert
  All-insert P k v [] p h = (p, tt)
  All-insert P k v ((j, w) ∷ d) p h = elim (Bool-cases (k == j)) [
    | inl q ↦ rw q (p, h.1)
    | inr q ↦ rw q (h.0, All-insert P k v d p h.1)
  ]

  pub All-erase {μ} :
      (P : V → Type μ) (k : K) (d : Dict K V)
      → All (λ (_, w). P w) d
      → All (λ (_, w). P w) (erase k d)
  unfolding erase
  All-erase P k [] h = tt
  All-erase P k ((j, w) ∷ d) h = elim (Bool-cases (k == j)) [
    | inl q ↦ rw q (All-erase P k d h.1)
    | inr q ↦ rw q (h.0, All-erase P k d h.1)
  ]
