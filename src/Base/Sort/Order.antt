-- ===== src/Base/Sort/Order.antt =====
-- The result of `sort` is sorted, and does not depend on the order of the input where `lt` tells the
-- elements apart.
use mathlib.Core.Path.{◌≡◌, refl, ◌∙◌, ap₂, sym}
use mathlib.Core.Logic.{inl, inr}
use mathlib.Core.Bool.{Bool, true, false}
use mathlib.Core.List.{List, [], ◌∷◌, Memᴰ, Permᴰ}
use native.Mathlib.Omega.{arith}
use cluster_node_tuning_oper.Base.Tests.{Bool-cases}
use cluster_node_tuning_oper.Base.Lists.{All}
use cluster_node_tuning_oper.Base.Sort.Defs.{insert_sorted, sort, IsSorted}

-- What Go asks of the `less` function of a sort.
pub record IsWeakOrder {ℓ} {A : Type ℓ} (lt : A → A → Bool) : Type ℓ where
  pub asym : (x y : A) → lt x y ≡ true → lt y x ≡ false
  pub le_trans : (x y z : A) → lt x y ≡ false → lt y z ≡ false → lt x z ≡ false

module _ {ℓ} {A : Type ℓ} (lt : A → A → Bool) (w : IsWeakOrder lt) where
  All-le :
      (x y : A) (ys : List A)
      → lt y x ≡ false
      → All (λ z. lt z y ≡ false) ys
      → All (λ z. lt z x ≡ false) ys
  All-le x y [] h hs = hs
  All-le x y (z ∷ zs) h hs = (w.le_trans z y x hs.0 h, All-le x y zs h hs.1)

  All-insert_sorted {κ} :
      (P : A → Type κ) (x : A) (ys : List A) → P x → All P ys → All P (insert_sorted lt x ys)
  unfolding insert_sorted
  All-insert_sorted P x [] p ps = (p, ps)
  All-insert_sorted P x (y ∷ ys) p ps = elim (Bool-cases (lt y x)) [
    | inl e ↦ rw e (ps.0, All-insert_sorted P x ys p ps.1)
    | inr e ↦ rw e (p, ps)
  ]

  insert_sorted-IsSorted :
      (x : A) (ys : List A) → IsSorted lt ys → IsSorted lt (insert_sorted lt x ys)
  unfolding insert_sorted
  insert_sorted-IsSorted x [] h = (tt, tt)
  insert_sorted-IsSorted x (y ∷ ys) h = elim (Bool-cases (lt y x)) [
    | inl e ↦ rw e (
      All-insert_sorted (λ z. lt z y ≡ false) x ys (w.asym y x e) h.0,
      insert_sorted-IsSorted x ys h.1,
    )
    | inr e ↦ rw e ((e, All-le x y ys e h.0), h)
  ]

  pub sort-IsSorted : (xs : List A) → IsSorted lt (sort lt xs)
  unfolding sort
  sort-IsSorted [] = tt
  sort-IsSorted (x ∷ xs) = insert_sorted-IsSorted x (sort lt xs) (sort-IsSorted xs)

  -- Two insertions commute where `lt` orders the two elements, or they are one.
  insert_sorted_comm :
      (x y : A) (zs : List A)
      → (lt x y ≡ false → lt y x ≡ false → x ≡ y)
      → insert_sorted lt x (insert_sorted lt y zs) ≡ insert_sorted lt y (insert_sorted lt x zs)
  unfolding insert_sorted
  insert_sorted_comm x y [] h = ground (arith, h, w.asym x y)
  insert_sorted_comm x y (z ∷ zs) h = ground (
    arith,
    h,
    w.asym x y,
    w.le_trans y z x,
    w.le_trans x z y,
    w.le_trans z x y,
    w.le_trans z y x,
    insert_sorted_comm x y zs h,
    w.asym y x,
  )

  -- `lt` orders any two elements of the list that are not one.
  abbrev pub IsStrictOn : List A → Type ℓ
  IsStrictOn xs = (x y : A) → Memᴰ x xs → Memᴰ y xs → lt x y ≡ false → lt y x ≡ false → x ≡ y

  mem-perm : {a : A} {xs ys : List A} → Permᴰ xs ys → Memᴰ a ys → Memᴰ a xs
  mem-perm Permᴰ.nil m = elim m [ ]
  mem-perm (Permᴰ.cons e p) (Memᴰ.head q) = Memᴰ.head (q ∙ sym e)
  mem-perm (Permᴰ.cons e p) (Memᴰ.tail m) = Memᴰ.tail (mem-perm p m)
  mem-perm (Permᴰ.swap e f) (Memᴰ.head q) = Memᴰ.tail (Memᴰ.head (q ∙ sym f))
  mem-perm (Permᴰ.swap e f) (Memᴰ.tail (Memᴰ.head q)) = Memᴰ.head (q ∙ sym e)
  mem-perm (Permᴰ.swap e f) (Memᴰ.tail (Memᴰ.tail m)) = Memᴰ.tail (Memᴰ.tail m)
  mem-perm (Permᴰ.trans p q) m = mem-perm p (mem-perm q m)

  -- A sort whose test tells the elements apart forgets the order of its input.
  pub sort-eq_of_perm : {xs ys : List A} → Permᴰ xs ys → IsStrictOn xs → sort lt xs ≡ sort lt ys
  unfolding sort
  sort-eq_of_perm Permᴰ.nil s = refl
  sort-eq_of_perm (Permᴰ.cons e p) s =
      ap₂ (insert_sorted lt) e (sort-eq_of_perm p (λ x y m n. s x y (Memᴰ.tail m) (Memᴰ.tail n)))
  sort-eq_of_perm (Permᴰ.swap {a} {b} {l = l} e f) s =
      insert_sorted_comm a b (sort lt l) (s a b (Memᴰ.head refl) (Memᴰ.tail (Memᴰ.head refl)))
      ∙ ap₂ (λ u v. insert_sorted lt u (insert_sorted lt v (sort lt l))) f e
  sort-eq_of_perm (Permᴰ.trans p q) s =
      sort-eq_of_perm p s ∙ sort-eq_of_perm q (λ x y m n. s x y (mem-perm p m) (mem-perm p n))
