-- ===== src/Operator/Recommend/Order.antt =====
-- pkg/operator/profilecalculator.go: TunedRecommend against a description of its order.
use mathlib.Core.List.{Perm, Permᴰ, perm_append_comm, append_assoc}
use mathlib.Core.List.Perm
use cluster_node_tuning_oper.Base.{
  ℕ, Option, none, some, true, false, List, [], ◌∷◌, ◌++◌, ◌==◌, option_eq, nat_eq, lt_str, sort,
  insert_sorted, sort-perm, IsSorted, keep, sort_stable, All, ◌≡◌, ◌≤◌, ◌∙◌, refl, sym, ap, subst,
  arith,
}
use cluster_node_tuning_oper.Operator.Types.{Tuned, TunedRecommend}
use cluster_node_tuning_oper.Operator.Recommend.{
  by_name, by_priority, priority_less, collect_rules, tuned_recommend,
}
use cluster_node_tuning_oper.Operator.Recommend.Laws.{
  NamesDiffer, tuned_recommend-eq_of_perm, tuned_recommend-IsSorted,
}

-- The rules of a resource, of which a nil slice has none.
abbrev pub rules_of : Option (List TunedRecommend) → List TunedRecommend
rules_of none = []
rules_of (some rules) = rules

abbrev pub all_rules : List Tuned → List TunedRecommend
all_rules [] = []
all_rules (t ∷ ts) = rules_of t.recommend ++ all_rules ts

-- Numbers come first, in their order, and undefined priorities last.
abbrev pub NotAfter : Option ℕ → Option ℕ → Type 0
NotAfter p none = Unit
NotAfter (some p) (some q) = p ≤ q
NotAfter none (some q) = ⊥

-- No rule comes after one of a higher number.
abbrev pub Ranked : List TunedRecommend → Type 0
Ranked [] = Unit
Ranked (r ∷ rs) = All (λ q. NotAfter r.priority q.priority) rs × Ranked rs

collect_rules-eq : (ts : List Tuned) → collect_rules ts ≡ all_rules ts
unfolding collect_rules
collect_rules-eq [] = refl
collect_rules-eq (t ∷ ts) = go t.recommend (collect_rules-eq ts)
  where
    go :
        (o : Option (List TunedRecommend))
        → collect_rules ts ≡ all_rules ts
        → elim o [ none ↦ collect_rules ts | some rules ↦ rules ++ collect_rules ts ]
          ≡ rules_of o ++ all_rules ts
    go none ih = ih
    go (some rules) ih = ap (λ l. rules ++ l) ih

-- A sort leaves a list that is sorted.
sort_sorted : (ts : List Tuned) → IsSorted by_name ts → sort by_name ts ≡ ts
unfolding sort
sort_sorted [] h = refl
sort_sorted (t ∷ []) h = refl
sort_sorted (t ∷ (u ∷ us)) (h, hs) =
    ap (insert_sorted by_name t) (sort_sorted (u ∷ us) hs)
    ∙ unfold insert_sorted in ground (arith, h.0)

append_swap : (xs ys zs : List TunedRecommend) → Perm (xs ++ (ys ++ zs)) (ys ++ (xs ++ zs))
append_swap xs ys zs =
    rw (sym (append_assoc xs ys zs), sym (append_assoc ys xs zs))
      (Perm.append_right zs (perm_append_comm xs ys))

all_rules-perm : {ts us : List Tuned} → Permᴰ ts us → Perm (all_rules ts) (all_rules us)
all_rules-perm Permᴰ.nil = Perm.refl []
all_rules-perm (Permᴰ.cons {a} {b} {l₁} {l₂} e p) =
    subst (λ x. Perm (all_rules (a ∷ l₁)) (all_rules (x ∷ l₂))) e
      (Perm.append_left (rules_of a.recommend) (all_rules-perm p))
all_rules-perm (Permᴰ.swap {a} {b} {a'} {b'} {l = l} e f) =
    subst (λ x. Perm (all_rules (a ∷ b ∷ l)) (all_rules (x ∷ b' ∷ l))) f
      (subst (λ x. Perm (all_rules (a ∷ b ∷ l)) (all_rules (b ∷ x ∷ l))) e
        (append_swap (rules_of a.recommend) (rules_of b.recommend) (all_rules l)))
all_rules-perm (Permᴰ.trans p q) = Perm.trans (all_rules-perm p) (all_rules-perm q)

Ranked-IsSorted : (rs : List TunedRecommend) → IsSorted by_priority rs → Ranked rs
Ranked-IsSorted [] h = tt
Ranked-IsSorted (r ∷ rs) (h, hs) = (go rs h, Ranked-IsSorted rs hs)
  where
    not_after : (p q : Option ℕ) → priority_less q p ≡ false → NotAfter p q
    not_after p none e = tt
    not_after (some p) (some q) e = ground arith
    not_after none (some q) e = ground arith

    go :
        (qs : List TunedRecommend)
        → All (λ q. by_priority q r ≡ false) qs
        → All (λ q. NotAfter r.priority q.priority) qs
    go [] a = tt
    go (q ∷ qs) (a, as') = (not_after r.priority q.priority a, go qs as')

-- The rules of all resources come in the order of their priorities, with undefined ones last; none is lost and none made up;
-- and those of one priority come as they stand in the resources, taken by their names. The
-- resources may be listed in any order, if two of one name are the same.
pub tuned_recommend_lem :
    (ts us : List Tuned)
    → Permᴰ ts us
    → NamesDiffer ts
    → IsSorted (λ a b. lt_str a.name b.name) us
    → Ranked (tuned_recommend ts)
      × Perm (tuned_recommend ts) (all_rules ts)
      × ((q : Option ℕ)
          → keep (λ r. r.priority == q) (tuned_recommend ts)
            ≡ keep (λ r. r.priority == q) (all_rules us))
tuned_recommend_lem ts us p d h =
    let listed : tuned_recommend ts ≡ sort by_priority (all_rules us) =
      tuned_recommend-eq_of_perm p d
      ∙ unfold tuned_recommend in
        (ap (λ l. sort by_priority (collect_rules l)) (sort_sorted us h)
          ∙ ap (sort by_priority) (collect_rules-eq us)) in
    (
      Ranked-IsSorted (tuned_recommend ts) (tuned_recommend-IsSorted ts),
      subst (λ l. Perm l (all_rules ts)) (sym listed)
          (Perm.trans (sort-perm by_priority (all_rules us)) (Perm.symm (all_rules-perm p))),
      λ q.
          ap (keep (λ r. r.priority == q)) listed
          ∙ sort_stable by_priority (λ r. r.priority == q)
              (λ x y a b. even q x.priority y.priority a b) (all_rules us),
    )
  where
    even : (q x y : Option ℕ) → (x == q) ≡ true → (y == q) ≡ true → priority_less x y ≡ false
    even q x y a b = ground arith
