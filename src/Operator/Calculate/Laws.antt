-- ===== src/Operator/Calculate/Laws.antt =====
-- pkg/operator/profilecalculator.go: calculateProfile selects the first rule, in the order of
-- priorities, that fits the node; and what it does where none fits or an answer is missing.
use mathlib.Core.List.{append-nil}
use cluster_node_tuning_oper.Base.{
  String, Bool, true, false, not, Option, none, some, List, [], ◌∷◌, ◌++◌, ◌&&◌, ◌||◌, string_eq,
  nat_eq, if◌then◌else◌, ◌≡◌, ◌≢◌, refl, ◌⊎◌, arith, All, inl, inr, Option-cases, Bool-cases, subst,
}
use cluster_node_tuning_oper.Operator.Types.{
  TunedRecommend, TunedProfile, Tuned, Err, Result, ok, err, slice_of, no_catch_all,
  get_default_tuned,
}
use cluster_node_tuning_oper.Util.StringsMap.{Labels}
use cluster_node_tuning_oper.Operator.State.{TunedState}
use cluster_node_tuning_oper.Operator.Match.{profile_matches}
use cluster_node_tuning_oper.Operator.Match.Laws.{Fulfils, profile_matches_iff}
use cluster_node_tuning_oper.Operator.Nodes.{Node}
use cluster_node_tuning_oper.Operator.Pools.{
  Selectors, Pool, any_pool_picks, machine_config_labels_match, get_pools_for_node, pools_selecting,
}
use cluster_node_tuning_oper.Operator.Pools.Laws.{no_nil, pools_of-no_nil}
use cluster_node_tuning_oper.Operator.Recommend.{tuned_recommend, tuned_profiles}
use cluster_node_tuning_oper.Operator.Calculate.{
  found_at, Warning, matched, is_nil, fetched_skipped, fetched_matched, crashed, recommend_loop,
  ComputedProfile, rule_verdict, fetch_pools, calculate_profile, no_profile, default_profile,
}
use cluster_node_tuning_oper.Operator.Calculate.Select.{
  Skips, IsDefined, recommend_loop-Skips, finish-found,
}

module _ (S : Selectors) (s : TunedState) (node : String) (nodes_get : String → Result Node)
    (pools : Result (List (Pool S))) where
  -- A rule is tried by node and pod labels if it has any, or if it names no MachineConfig labels.
  abbrev pub ByLabels : TunedRecommend → Type 0
  ByLabels r =
      ((r.rules ≢ none) ⊎ (r.machine_config_labels ≡ none)) × Fulfils s node (slice_of r.rules)

  -- The pools of the node are known, and one of them selects the labels (or none does).
  abbrev pub PoolsAnswer : Labels → Bool → Type 0
  PoolsAnswer labels answer =
      (ps : Option (List (Option (Pool S)))) × (fetch_pools S s node nodes_get pools ≡ ok ps)
      × (machine_config_labels_match S (some labels) ps ≡ some answer)

  -- The rule fits the node, and the MachineConfig labels that come with it.
  pub data Fits (r : TunedRecommend) : Option Labels → Type 0 where
    by_labels : ByLabels r → Fits r none
    by_pools :
        (labels : Labels)
        → ¬ (ByLabels r)
        → r.machine_config_labels ≡ some labels
        → PoolsAnswer labels true
        → Fits r (some labels)

  -- The rule does not fit the node.
  pub data Misfits (r : TunedRecommend) : Type 0 where
    no_labels : ¬ (ByLabels r) → r.machine_config_labels ≡ none → Misfits r
    no_pools :
        (labels : Labels)
        → ¬ (ByLabels r)
        → r.machine_config_labels ≡ some labels
        → PoolsAnswer labels false
        → Misfits r

  abbrev pub test : TunedRecommend → Bool
  test r =
      (not (is_nil r.rules) || is_nil r.machine_config_labels)
      && profile_matches s node (slice_of r.rules)

  test-true : (r : TunedRecommend) → ByLabels r → test r ≡ true
  test-true r (g, f) = ground (arith, g, (profile_matches_iff s node (slice_of r.rules)).1 f)

  pub test-false : (r : TunedRecommend) → ¬ (ByLabels r) → test r ≡ false
  test-false r h = elim (Bool-cases (test r)) [
    | inl e ↦
        absurd (h (ground arith, (profile_matches_iff s node (slice_of r.rules)).0 (ground arith)))
    | inr e ↦ e
  ]

  pub verdict-ByLabels :
      (r : TunedRecommend) → ByLabels r → rule_verdict S s node nodes_get pools r ≡ matched none ""
  unfolding rule_verdict
  verdict-ByLabels r h = rw (test-true r h, rule_verdict)

  verdict_pools :
      (r : TunedRecommend) (labels : Labels) (answer : Bool)
      → ¬ (ByLabels r)
      → r.machine_config_labels ≡ some labels
      → PoolsAnswer labels answer
      → rule_verdict S s node nodes_get pools r
        ≡ (if answer then fetched_matched labels else fetched_skipped)
  unfolding rule_verdict
  verdict_pools r labels true h e (ps, f, m) =
      rw (test-false r h, e, rule_verdict) (rw (f, rule_verdict) (rw (m, rule_verdict)))
  verdict_pools r labels false h e (ps, f, m) =
      rw (test-false r h, e, rule_verdict) (rw (f, rule_verdict) (rw (m, rule_verdict)))

  Misfits-Skips : (r : TunedRecommend) → Misfits r → Skips (rule_verdict S s node nodes_get pools r)
  Misfits-Skips r (no_labels h e) =
      inl (unfold rule_verdict in rw (test-false r h, e, rule_verdict))
  Misfits-Skips r (no_pools labels h e a) = inr (verdict_pools r labels false h e a)

  All-Misfits :
      (rs : List TunedRecommend)
      → All Misfits rs
      → All (λ r. Skips (rule_verdict S s node nodes_get pools r)) rs
  All-Misfits [] h = tt
  All-Misfits (r ∷ rs) (m, h) = (Misfits-Skips r m, All-Misfits rs h)

  any_pool_picks-total :
      (labels : Labels) (ps : List (Option (Pool S)))
      → no_nil S ps ≡ true
      → any_pool_picks S labels ps ≢ none
  unfolding any_pool_picks
  any_pool_picks-total labels [] h = λ e. cc
  any_pool_picks-total labels (none ∷ ps) h = cc
  any_pool_picks-total labels (some p ∷ ps) h = ground (arith, any_pool_picks-total labels ps h)

  match-total :
      (labels : Labels) (ps : Option (List (Option (Pool S))))
      → ((l : List (Option (Pool S))) → ps ≡ some l → no_nil S l ≡ true)
      → machine_config_labels_match S (some labels) ps ≢ none
  unfolding machine_config_labels_match
  match-total labels none h = λ e. cc
  match-total labels (some l) h = ground (arith, any_pool_picks-total labels l (h l refl))

  fetch-no_nil :
      (ps : Option (List (Option (Pool S)))) (l : List (Option (Pool S)))
      → fetch_pools S s node nodes_get pools ≡ ok ps
      → ps ≡ some l
      → no_nil S l ≡ true
  unfolding fetch_pools get_pools_for_node
  fetch-no_nil ps l e q = go (nodes_get node) pools refl refl
    where
      go :
          (n : Result Node) (p : Result (List (Pool S)))
          → nodes_get node ≡ n
          → pools ≡ p
          → no_nil S l ≡ true
      go (err x) p a b = absurd (ground (arith, e, a))
      go (ok m) (err x) a b = absurd (ground (arith, e, a, b))
      go (ok m) (ok pl) a b =
          pools_of-no_nil S (pools_selecting S m.labels pl) l (ground (arith, e, a, b, q))

  -- No rule makes the loop crash: the pools of a node are never nil.
  rule_verdict-safe : (r : TunedRecommend) → rule_verdict S s node nodes_get pools r ≢ crashed
  unfolding rule_verdict
  rule_verdict-safe r = elim (Option-cases (r.machine_config_labels)) [
    | inl e ↦ ground (arith, e)
    | inr (labels, e) ↦ go labels e (fetch_pools S s node nodes_get pools) refl
  ]
    where
      go :
          (labels : Labels)
          → r.machine_config_labels ≡ some labels
          → (x : Result (Option (List (Option (Pool S)))))
          → fetch_pools S s node nodes_get pools ≡ x
          → rule_verdict S s node nodes_get pools r ≢ crashed
      go labels e (err y) q = ground (arith, e, q)
      go labels e (ok ps) q =
          ground (arith, e, q, match-total labels ps (λ l h. fetch-no_nil ps l q h))

  abbrev pub HasProfile : TunedRecommend → Type 0
  HasProfile r = r.profile ≢ none

  pub All-IsDefined :
      (rs : List TunedRecommend)
      → All HasProfile rs
      → All (IsDefined (rule_verdict S s node nodes_get pools)) rs
  All-IsDefined [] h = tt
  All-IsDefined (r ∷ rs) (p, h) = ((p, rule_verdict-safe r), All-IsDefined rs h)

  -- What the first rule that fits is turned into.
  abbrev pub selected :
      TunedRecommend → String → Option Labels → List TunedProfile → ComputedProfile
  selected r p labels profiles = record {
    tuned_profile_name = p;
    all_profiles = profiles;
    mc_labels = labels;
    node_pool_name = "";
    operand = r.operand;
  }

  found_at-some :
      (r : TunedRecommend) (rs : List TunedRecommend) (labels : Option Labels) (p : String)
      → r.profile ≡ some p
      → found_at r rs labels ""
        ≡ some (record {
          rest = r ∷ rs;
          profile = p;
          mc_labels = labels;
          node_pool_name = "";
          operand = r.operand;
          error = none;
        })
  unfolding found_at
  found_at-some r rs labels p e = ground (arith, e)

  pub loop_finds :
      (r : TunedRecommend) (rs : List TunedRecommend) (labels : Option Labels) (p : String)
      (errv : Option Err)
      → Fits r labels
      → r.profile ≡ some p
      → (errv' : Option Err) × (recommend_loop (rule_verdict S s node nodes_get pools) (r ∷ rs) errv
          ≡ some (
            record {
              rest = r ∷ rs;
              profile = p;
              mc_labels = labels;
              node_pool_name = "";
              operand = r.operand;
              error = none;
            },
            errv',
          ))
  unfolding recommend_loop
  loop_finds r rs labels p errv (by_labels h) e =
      (errv, rw (verdict-ByLabels r h, recommend_loop) (rw (found_at-some r rs none p e)))
  loop_finds r rs labels p errv (by_pools ls h m a) e = (
    none,
    rw (verdict_pools r ls true h m a, recommend_loop) (rw (found_at-some r rs (some ls) p e)),
  )

  -- calculateProfile selects the first rule, in the order of the sorted rules, that fits the node: by
  -- its node and pod labels, or by the MachineConfig labels that a pool of the node selects. It takes
  -- the rule's profile and operand configuration, and its MachineConfig labels only in the second
  -- case, with the profiles of all resources. No nil pointer is dereferenced if the later rules name
  -- a profile.
  pub calculate_profile-first :
      (tuneds : List Tuned) (default_get : Result Tuned) (pre : List TunedRecommend)
      (r : TunedRecommend) (rs : List TunedRecommend) (labels : Option Labels) (p : String)
      → tuned_recommend tuneds ≡ pre ++ (r ∷ rs)
      → All Misfits pre
      → Fits r labels
      → r.profile ≡ some p
      → All HasProfile rs
      → (e : Option Err) × (warnings : List Warning) × (calculate_profile S s node nodes_get
            (ok tuneds)
            default_get
            pools
          ≡ some (selected r p labels (tuned_profiles tuneds), e, warnings))
  unfolding calculate_profile
  calculate_profile-first tuneds default_get pre r rs labels p sorted misfits fits e h =
      let verdict = rule_verdict S s node nodes_get pools in
      let (errv, skip) = recommend_loop-Skips verdict pre (r ∷ rs) none (All-Misfits pre misfits) in
      let (errv', found) = loop_finds r rs labels p errv fits e in
      let (x, warnings, end) =
        finish-found verdict (tuned_profiles tuneds)
          (record {
            rest = r ∷ rs;
            profile = p;
            mc_labels = labels;
            node_pool_name = "";
            operand = r.operand;
            error = none;
          })
          errv' r rs p refl e (All-IsDefined rs h) in
      (x, warnings, rw (sorted, skip, found, calculate_profile) end)

  -- Where no rule fits the node, the default profile is returned with an error: the default resource is
  -- missing, or it lacks a rule for all nodes.
  pub calculate_profile-none_fits :
      (tuneds : List Tuned) (default_get : Result Tuned)
      → All Misfits (tuned_recommend tuneds)
      → calculate_profile S s node nodes_get (ok tuneds) default_get pools
        ≡ some (
          record no_profile { tuned_profile_name = default_profile },
          elim default_get [ err e ↦ some (get_default_tuned e) | ok _ ↦ some no_catch_all ],
          [],
        )
  unfolding calculate_profile
  calculate_profile-none_fits tuneds default_get h =
      let verdict = rule_verdict S s node nodes_get pools in
      let (errv, skip) =
        recommend_loop-Skips verdict (tuned_recommend tuneds) [] none
          (All-Misfits (tuned_recommend tuneds) h) in
      let skip' =
        subst (λ l. recommend_loop verdict l none ≡ recommend_loop verdict [] errv)
          (append-nil (tuned_recommend tuneds)) skip in
      rw (skip', recommend_loop, calculate_profile)
