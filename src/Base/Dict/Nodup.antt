-- ===== src/Base/Dict/Nodup.antt =====
-- Two maps of one size, where one holds all that the other holds, hold the same.
use Prim.Native.Nat.{suc, ◌≤◌}
use mathlib.Core.Path.{◌≡◌, refl, sym, ◌∙◌}
use mathlib.Core.Option.{none, some}
use mathlib.Core.List.{[], ◌∷◌}
use native.Mathlib.Omega.{arith}
use cluster_node_tuning_oper.Base.Lists.{length}
use cluster_node_tuning_oper.Base.Equality.{Eq}
use cluster_node_tuning_oper.Base.Dict.Defs.{Dict, lookup, erase, NodupKeys}
use cluster_node_tuning_oper.Base.Dict.Laws.{lookup-erase, erase-NodupKeys}

module _ {ℓ κ} {K : Type ℓ} {V : Type κ} ⦃e : Eq K⦄ where
  length-erase_of_none : (k : K) (d : Dict K V) → lookup k d ≡ none → length (erase k d) ≡ length d
  unfolding lookup erase
  length-erase_of_none k [] h = refl
  length-erase_of_none k (_ ∷ d) h = ground (arith, length-erase_of_none k d)

  length-erase_of_some :
      (k : K) (v : V) (d : Dict K V)
      → NodupKeys d
      → lookup k d ≡ some v
      → suc (length (erase k d)) ≡ length d
  unfolding lookup erase
  length-erase_of_some k v [] u h = cc
  length-erase_of_some k v (_ ∷ d) u h =
      ground (arith, length-erase_of_some k v d u.1, length-erase_of_none k d)

  -- The second map holds all that the first holds.
  abbrev pub Within : Dict K V → Dict K V → Type (ℓ ⊔ κ)
  Within a b = (k : K) (v : V) → lookup k a ≡ some v → lookup k b ≡ some v

  Within-erase :
      (k : K) (v : V) (a b : Dict K V)
      → lookup k a ≡ none
      → Within ((k, v) ∷ a) b
      → Within a (erase k b)
  unfolding lookup
  Within-erase k v a b fresh h j w e = ground (arith, h j w, lookup-erase j k b)

  Within-length : (a b : Dict K V) → NodupKeys a → NodupKeys b → Within a b → length a ≤ length b
  unfolding lookup
  Within-length [] b u u' h = omega arith
  Within-length ((k, v) ∷ a) b (fresh, u) u' h = omega (
    arith,
    length-erase_of_some k v b u' (h k v (ground arith)),
    Within-length a (erase k b) u (erase-NodupKeys k b u') (Within-erase k v a b fresh h),
  )

  -- A map of the same size that holds all that another holds, holds nothing else.
  pub lookup-eq_of_Within :
      (a b : Dict K V)
      → NodupKeys a
      → NodupKeys b
      → length a ≡ length b
      → Within a b
      → (j : K) → lookup j a ≡ lookup j b
  unfolding lookup
  lookup-eq_of_Within [] [] u u' s h j = refl
  lookup-eq_of_Within [] (_ ∷ b) u u' s h j = absurd (omega arith)
  lookup-eq_of_Within ((k, v) ∷ a) b (fresh, u) u' s h j = ground (
    arith,
    h k v,
    lookup-erase j k b,
    lookup-eq_of_Within a (erase k b) u (erase-NodupKeys k b u')
        (omega (arith, length-erase_of_some k v b u' (h k v (ground arith))))
        (Within-erase k v a b fresh h) j,
  )

  -- Maps that hold the same have the same size.
  pub length-eq_of_lookup :
      (a b : Dict K V)
      → NodupKeys a
      → NodupKeys b
      → ((j : K) → lookup j a ≡ lookup j b)
      → length a ≡ length b
  length-eq_of_lookup a b u u' h = omega (
    arith,
    Within-length a b u u' (λ k v e. sym (h k) ∙ e),
    Within-length b a u' u (λ k v e. h k ∙ e),
  )
