-- ===== src/Operator/Recommend/Laws.antt =====
-- pkg/operator/profilecalculator.go: the rules are sorted by priority, and do not depend on the order of
-- the resources.
use mathlib.Core.List.{Permᴰ, Memᴰ}
use cluster_node_tuning_oper.Base.{
  String, ℕ, true, false, Option, List, string_eq, lt_str, lt_str_irrefl, lt_str_trans,
  lt_str_total, sort, IsSorted, IsWeakOrder, sort-IsSorted, sort-eq_of_perm, option_eq, nat_eq, ◌≡◌,
  ap, arith,
}
use cluster_node_tuning_oper.Operator.Types.{Tuned}
use cluster_node_tuning_oper.Operator.Recommend.{
  by_name, by_priority, priority_less, collect_rules, tuned_recommend,
}

pub by_priority-IsWeakOrder : IsWeakOrder by_priority
by_priority-IsWeakOrder = record {
  asym = λ x y h. asym x.priority y.priority h;
  le_trans = λ x y z h k. le_trans x.priority y.priority z.priority h k;
}
  where
    asym : (p q : Option ℕ) → priority_less p q ≡ true → priority_less q p ≡ false
    asym p q h = ground arith

    le_trans :
        (p q r : Option ℕ)
        → priority_less p q ≡ false
        → priority_less q r ≡ false
        → priority_less p r ≡ false
    le_trans p q r h k = ground arith

lt_str_asym : (s t : String) → lt_str s t ≡ true → lt_str t s ≡ false
lt_str_asym s t h = ground (arith, lt_str_trans s t s, lt_str_irrefl s)

lt_str_le_trans : (s t u : String) → lt_str s t ≡ false → lt_str t u ≡ false → lt_str s u ≡ false
lt_str_le_trans s t u h k =
    ground (arith, lt_str_trans t s u, lt_str_total s t h, lt_str_trans s u t, lt_str_total t u k)

pub lt_str-IsWeakOrder : IsWeakOrder lt_str
lt_str-IsWeakOrder = record { asym = lt_str_asym; le_trans = lt_str_le_trans }

by_name-IsWeakOrder : IsWeakOrder by_name
by_name-IsWeakOrder = record {
  asym = λ x y h. lt_str_asym x.name y.name h;
  le_trans = λ x y z h k. lt_str_le_trans x.name y.name z.name h k;
}

-- The rules come in the order of their priorities, those with no priority last.
pub tuned_recommend-IsSorted : (ts : List Tuned) → IsSorted by_priority (tuned_recommend ts)
unfolding tuned_recommend
tuned_recommend-IsSorted ts =
    sort-IsSorted by_priority by_priority-IsWeakOrder (collect_rules (sort by_name ts))

-- Two resources of one name are one, as the API server sees to.
abbrev pub NamesDiffer : List Tuned → Type 0
NamesDiffer ts = (a b : Tuned) → Memᴰ a ts → Memᴰ b ts → a.name ≡ b.name → a ≡ b

-- The rules do not depend on the order in which the resources are listed, if two resources of one
-- name are the same.
pub tuned_recommend-eq_of_perm :
    {ts us : List Tuned} → Permᴰ ts us → NamesDiffer ts → tuned_recommend ts ≡ tuned_recommend us
unfolding tuned_recommend
tuned_recommend-eq_of_perm p d =
    ap (λ l. sort by_priority (collect_rules l))
      (sort-eq_of_perm by_name by_name-IsWeakOrder p
        (λ x y m n h k. d x y m n (lt_str_total x.name y.name h k)))
