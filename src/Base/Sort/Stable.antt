-- ===== src/Base/Sort/Stable.antt =====
-- `sort` keeps the order of the elements that its test does not tell apart.
use mathlib.Core.Path.{◌≡◌, refl, ◌∙◌}
use mathlib.Core.Bool.{Bool, true, false}
use mathlib.Core.List.{List, [], ◌∷◌}
use native.Mathlib.Omega.{arith}
use cluster_node_tuning_oper.Base.Tests.{if◌then◌else◌}
use cluster_node_tuning_oper.Base.Sort.Defs.{insert_sorted, sort}

-- The elements that pass a test, in order.
unfoldable pub keep {ℓ} : {A : Type ℓ} → (A → Bool) → List A → List A
keep p [] = []
keep p (x ∷ xs) = let rest = keep p xs in if p x then x ∷ rest else rest

module _ {ℓ} {A : Type ℓ} (lt : A → A → Bool) (p : A → Bool)
    (even_rank : (x y : A) → p x ≡ true → p y ≡ true → lt x y ≡ false) where
  keep-insert_sorted : (x : A) (ys : List A) → keep p (insert_sorted lt x ys) ≡ keep p (x ∷ ys)
  unfolding keep insert_sorted
  keep-insert_sorted x [] = refl
  keep-insert_sorted x (y ∷ ys) = ground (arith, keep-insert_sorted x ys, even_rank y x)

  -- Elements of one rank come out in the order in which they went in.
  pub sort_stable : (xs : List A) → keep p (sort lt xs) ≡ keep p xs
  unfolding keep sort
  sort_stable [] = refl
  sort_stable (x ∷ xs) = keep-insert_sorted x (sort lt xs) ∙ ground (arith, sort_stable xs)
