-- ===== src/Conditions/Changes.antt =====
-- pkg/clusteroperator/status.go: ConditionsEqual tells whether SetStatusCondition changed anything.
use cluster_node_tuning_oper.Base.{
  ℕ, Bool, true, false, Option, none, some, List, [], ◌∷◌, string_eq, nat_eq, any, all, length, ◌≡◌,
  refl, arith, inl, inr, Option-cases, length-append, or_right,
}
use cluster_node_tuning_oper.Conditions.{
  Condition, same_content, set_loop, set_status_condition, same_condition, conditions_equal,
}

all_mono {ℓ} :
    {A : Type ℓ} (p q : A → Bool) (xs : List A)
    → ((a : A) → p a ≡ true → q a ≡ true)
    → all p xs ≡ true
    → all q xs ≡ true
all_mono p q [] f h = refl
all_mono p q (x ∷ xs) f h = ground (arith, f x, all_mono p q xs f)

conditions_equal-all : (xs : List Condition) → all (λ a. any (same_condition a) xs) xs ≡ true
conditions_equal-all [] = refl
conditions_equal-all (x ∷ xs) = ground (
  arith,
  all_mono (λ a. any (same_condition a) xs) (λ a. any (same_condition a) (x ∷ xs)) xs
      (λ a h. rw h (or_right (same_condition a x))) (conditions_equal-all xs),
)

set_loop-none :
    (c : Condition) (old : List Condition)
    → set_loop c old ≡ none
    → any (same_condition c) old ≡ true
unfolding set_loop
set_loop-none c [] h = cc
set_loop-none c (x ∷ xs) h = ground (arith, set_loop-none c xs)

set_loop-differs :
    (c : Condition) (old : List Condition) (r : Bool × List Condition)
    → set_loop c old ≡ some r
    → any (same_condition c) old ≡ false
unfolding set_loop
set_loop-differs c [] r h = refl
set_loop-differs c (x ∷ xs) r h = elim (Option-cases (set_loop c xs)) [
  | inl e ↦ ground (arith, e)
  | inr (q, e) ↦ ground (arith, e, set_loop-differs c xs q e)
]

set_loop-length :
    (c : Condition) (old : List Condition) (found : Bool) (new : List Condition)
    → set_loop c old ≡ some (found, new)
    → length new ≡ length old
unfolding set_loop
set_loop-length c [] found new h = ground arith
set_loop-length c (x ∷ xs) found new h = elim (Option-cases (set_loop c xs)) [
  | inl e ↦ ground (arith, e)
  | inr ((f, n), e) ↦ ground (arith, e, set_loop-length c xs f n e)
]

-- An old condition of the type, with another content, is gone.
set_loop-gone :
    (c o : Condition) (old : List Condition) (found : Bool) (new : List Condition)
    → set_loop c old ≡ some (found, new)
    → c.typ ≡ o.typ
    → same_content c o ≡ false
    → any (same_condition o) new ≡ false
unfolding set_loop
set_loop-gone c o [] found new h t d = ground arith
set_loop-gone c o (x ∷ xs) found new h t d = elim (Option-cases (set_loop c xs)) [
  | inl e ↦ ground (arith, e)
  | inr ((f, n), e) ↦ ground (arith, e, set_loop-gone c o xs f n e t d)
]

set_loop-misses :
    (c : Condition) (all_new old new : List Condition)
    → set_loop c old ≡ some (true, new)
    → ((o : Condition)
        → c.typ ≡ o.typ
        → same_content c o ≡ false
        → any (same_condition o) all_new ≡ false)
    → all (λ a. any (same_condition a) all_new) old ≡ false
unfolding set_loop
set_loop-misses c all_new [] new h g = ground arith
set_loop-misses c all_new (x ∷ xs) new h g = elim (Option-cases (set_loop c xs)) [
  | inl e ↦ ground (arith, e)
  | inr ((true, n), e) ↦ ground (arith, e, g x, set_loop-misses c all_new xs n e g)
  | inr ((false, n), e) ↦ ground (arith, e, g x)
]

-- The conditions before and after one is set are equal exactly when there was one of the same type,
-- status, reason and message.
pub conditions_equal-set :
    (now : ℕ) (c : Condition) (old : List Condition)
    → conditions_equal old (set_status_condition now c old) ≡ any (same_condition c) old
unfolding conditions_equal set_status_condition
conditions_equal-set now c old = go (set_loop d old) refl
  where
    d : Condition
    d = record c { last_transition_time = now }

    go :
        (x : Option (Bool × List Condition))
        → set_loop d old ≡ x
        → conditions_equal old (set_status_condition now c old) ≡ any (same_condition c) old
    go none e = ground (arith, e, conditions_equal-all old, set_loop-none d old e)
    go (some (true, new)) e = ground (
      arith,
      e,
      set_loop-length d old true new e,
      set_loop-differs d old (true, new) e,
      set_loop-misses d new old new e (λ o. set_loop-gone d o old true new e),
    )
    go (some (false, new)) e = ground (
      arith,
      e,
      set_loop-length d old false new e,
      set_loop-differs d old (false, new) e,
      length-append new (d ∷ []),
    )
