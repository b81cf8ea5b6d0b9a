-- ===== src/Tests/Rules.antt =====
-- pkg/operator/profilecalculator.go and pkg/operator/mc.go, the order of rules and the names of
-- MachineConfigs, at concrete inputs.
use mathlib.Core.List.{Perm, Permᴰ, Memᴰ}
use cluster_node_tuning_oper.Base.{
  String, ℕ, true, false, Option, none, some, List, [], ◌∷◌, ◌≡◌, refl, ◌==◌, string_eq, option_eq,
  nat_eq, sort, lt_str, keep, IsSorted, ap, sym, ◌∙◌, ◌≢◌, ◌⊎◌, inl, inr, All,
}
use cluster_node_tuning_oper.Operator.Types.{Tuned, TunedRecommend, no_operand}
use cluster_node_tuning_oper.Operator.Recommend.{tuned_recommend, tuneds_use_pod_labels}
use cluster_node_tuning_oper.Operator.Recommend.Laws.{NamesDiffer, tuned_recommend-eq_of_perm}
use cluster_node_tuning_oper.Operator.Recommend.Order.{Ranked, all_rules, tuned_recommend_lem}
use cluster_node_tuning_oper.Operator.State.{TunedState, new_state}
use cluster_node_tuning_oper.Operator.Recommend.Uses.{Alike, tuneds_use_pod_labels-Alike}
use cluster_node_tuning_oper.Operator.Pools.{Selectors, Pool, pools_of}
use cluster_node_tuning_oper.Util.StringsMap.{Labels, map_of_strings_contains}

abbrev rule : Option String → Option ℕ → TunedRecommend
rule profile priority = record {
  profile = profile;
  priority = priority;
  rules = none;
  machine_config_labels = none;
  operand = no_operand;
}

abbrev first : Tuned
first = record {
  name = "a";
  profile = none;
  recommend = some (rule (some "p") (some 20) ∷ rule (some "q") none ∷ []);
}

abbrev second : Tuned
second = record { name = "b"; profile = none; recommend = some (rule (some "r") (some 10) ∷ []) }

abbrev both : List Tuned
both = first ∷ second ∷ []

member : (a : Tuned) → Memᴰ a both → (a ≡ first) ⊎ (a ≡ second)
member a (Memᴰ.head e) = inl e
member a (Memᴰ.tail (Memᴰ.head e)) = inr e
member a (Memᴰ.tail (Memᴰ.tail h)) = elim h [ ]

names-differ : first.name ≢ second.name
unfolding string_eq
names-differ e = let same : true ≡ false = ap (λ x. first.name == x) e in cc

both-NamesDiffer : NamesDiffer both
both-NamesDiffer a b ha hb e = go (member a ha) (member b hb)
  where
    go : (a ≡ first) ⊎ (a ≡ second) → (b ≡ first) ⊎ (b ≡ second) → a ≡ b
    go (inl p) (inl q) = p ∙ sym q
    go (inl p) (inr q) = absurd (names-differ (sym (ap (λ t. t.name) p) ∙ e ∙ ap (λ t. t.name) q))
    go (inr p) (inl q) =
        absurd (names-differ (sym (ap (λ t. t.name) q) ∙ sym e ∙ ap (λ t. t.name) p))
    go (inr p) (inr q) = p ∙ sym q

both-IsSorted : IsSorted (λ a b. lt_str a.name b.name) both
unfolding lt_str
both-IsSorted = ((refl, tt), (tt, tt))

tuned_recommend_lem_example :
    Ranked (tuned_recommend (second ∷ first ∷ []))
    × Perm (tuned_recommend (second ∷ first ∷ [])) (all_rules (second ∷ first ∷ []))
    × ((q : Option ℕ)
        → keep (λ r. r.priority == q) (tuned_recommend (second ∷ first ∷ []))
          ≡ keep (λ r. r.priority == q) (all_rules both))
tuned_recommend_lem_example =
    tuned_recommend_lem (second ∷ first ∷ []) both (Permᴰ.swap refl refl)
      (λ a b m n. both-NamesDiffer a b (turned a m) (turned b n)) both-IsSorted
  where
    turned : (a : Tuned) → Memᴰ a (second ∷ first ∷ []) → Memᴰ a both
    turned a (Memᴰ.head e) = Memᴰ.tail (Memᴰ.head e)
    turned a (Memᴰ.tail (Memᴰ.head e)) = Memᴰ.head e
    turned a (Memᴰ.tail (Memᴰ.tail m)) = elim m [ ]

tuned_recommend-eq_of_perm_example : tuned_recommend both ≡ tuned_recommend (second ∷ first ∷ [])
tuned_recommend-eq_of_perm_example =
    tuned_recommend-eq_of_perm {ts = both} {us = second ∷ first ∷ []} (Permᴰ.swap refl refl)
      both-NamesDiffer

-- Label selectors that are maps of labels.
abbrev selectors : Selectors
selectors = record {
  LabelSelector = Labels;
  Selector = Labels;
  as_selector = some;
  is_empty = λ s. elim s [ [] ↦ true | _ ∷ _ ↦ false ];
  selects = λ s labels. map_of_strings_contains labels s;
  match_labels = λ labels. labels;
}

abbrev pool : String → Pool selectors
pool name = record { name = name; machine_config_selector = []; node_selector = [] }

-- Two custom pools, besides the worker pool, are an error, and one is taken together with it.
taken :
    pools_of selectors (pool "worker" ∷ pool "rt" ∷ [])
    ≡ some (some (pool "rt") ∷ some (pool "worker") ∷ [])
unfolding pools_of string_eq
taken = refl

abbrev quiet : TunedState
quiet = record new_state { node_labels = ("n1", ("zone", "a") ∷ []) ∷ [] }

abbrev busy : TunedState
busy = record quiet { pod_labels = ("n1", ("ns/a", ("app", "web") ∷ []) ∷ []) ∷ [] }

both-use_no_pods : tuneds_use_pod_labels both ≡ false
unfolding tuneds_use_pod_labels sort lt_str
both-use_no_pods = refl

tuneds_use_pod_labels-Alike_example : All (Alike quiet busy "n1" refl) (tuned_recommend both)
tuneds_use_pod_labels-Alike_example =
    tuneds_use_pod_labels-Alike quiet busy "n1" refl both both-use_no_pods
