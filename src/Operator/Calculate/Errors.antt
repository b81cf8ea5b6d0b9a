-- ===== src/Operator/Calculate/Errors.antt =====
-- pkg/operator/profilecalculator.go: the variable err that the closure recommendProfile writes.
use cluster_node_tuning_oper.Base.{
  String, ℕ, zero, suc, Option, none, some, List, [], ◌∷◌, ◌≡◌, refl, ◌∙◌, ◌⊎◌, inl, inr, arith,
  All, Bool-cases, Option-cases, length, not, ◌&&◌, ◌||◌,
}
use cluster_node_tuning_oper.Util.StringsMap.{Labels}
use cluster_node_tuning_oper.Operator.Types.{TunedRecommend, Tuned, Err, Result, ok, err, slice_of}
use cluster_node_tuning_oper.Operator.State.{TunedState}
use cluster_node_tuning_oper.Operator.Nodes.{Node}
use cluster_node_tuning_oper.Operator.Match.{profile_matches}
use cluster_node_tuning_oper.Operator.Pools.{Selectors, Pool}
use cluster_node_tuning_oper.Operator.Recommend.{tuned_recommend, tuned_profiles}
use cluster_node_tuning_oper.Operator.Calculate.{
  Found, Verdict, matched, skipped, fetch_failed, is_nil, recommend_loop, compare_rules, dup_loop,
  Warning, rule_verdict, fetch_pools, calculate_profile, finish,
}
use cluster_node_tuning_oper.Base.{ap}
use cluster_node_tuning_oper.Operator.Calculate.Select.{dup_loop-total}
use cluster_node_tuning_oper.Operator.Calculate.Laws.{
  ByLabels, by_labels, HasProfile, All-IsDefined, selected, test-false, loop_finds,
}

module _ (S : Selectors) (s : TunedState) (node : String) (nodes_get : String → Result Node)
    (pools : Result (List (Pool S))) (x : Err) (gone : nodes_get node ≡ err x) where
  abbrev verdict : TunedRecommend → Verdict
  verdict = rule_verdict S s node nodes_get pools

  fetch-gone : fetch_pools S s node nodes_get pools ≡ err x
  unfolding fetch_pools
  fetch-gone = rw (gone, fetch_pools)

  -- A rule matches by labels, is skipped, or fails with the error.
  verdict-cases :
      (r : TunedRecommend)
      → (verdict r ≡ matched none "") ⊎ ((verdict r ≡ skipped) ⊎ (verdict r ≡ fetch_failed x))
  unfolding rule_verdict
  verdict-cases r =
      elim (Bool-cases (
        (not (is_nil r.rules) || is_nil r.machine_config_labels)
        && profile_matches s node (slice_of r.rules))) [
          | inl e ↦ inl (rw (e, rule_verdict))
          | inr e ↦ elim (Option-cases (r.machine_config_labels)) [
            | inl m ↦ inr (inl (rw (e, rule_verdict) (rw (m, rule_verdict))))
            | inr (labels, m) ↦
                inr (
                  inr (rw (e, rule_verdict) (rw (m, rule_verdict) (rw (fetch-gone, rule_verdict)))))
          ]
        ]

  recommend_loop-keeps :
      (rs : List TunedRecommend) (f : Found) (e : Option Err)
      → recommend_loop verdict rs (some x) ≡ some (f, e)
      → e ≡ some x
  unfolding recommend_loop
  recommend_loop-keeps [] f e h = ground (arith, h)
  recommend_loop-keeps (r ∷ rs) f e h = go (verdict-cases r) (recommend_loop-keeps rs f e)
    where
      go :
          (verdict r ≡ matched none "") ⊎ ((verdict r ≡ skipped) ⊎ (verdict r ≡ fetch_failed x))
          → (recommend_loop verdict rs (some x) ≡ some (f, e) → e ≡ some x)
          → e ≡ some x
      go (inl q) ih = ground (arith, h, q)
      go (inr (inl q)) ih = ih (ground (arith, h, q))
      go (inr (inr q)) ih = ground (arith, h, q)

  dup_loop-keeps :
      (fuel : ℕ) (first : TunedRecommend) (name : String) (rs : List TunedRecommend)
      (e : Option Err) (warnings : List Warning)
      → dup_loop fuel (recommend_loop verdict) first name rs (some x) ≡ some (e, warnings)
      → e ≡ some x
  unfolding dup_loop
  dup_loop-keeps zero first name rs e warnings h = ground (arith, h)
  dup_loop-keeps (suc fuel) first name [] e warnings h = ground (arith, h)
  dup_loop-keeps (suc fuel) first name (r ∷ rs) e warnings h =
      go (recommend_loop verdict (r ∷ rs) (some x)) refl
        (λ qs e' ws. dup_loop-keeps fuel first name qs e' ws)
    where
      go :
          (o : Option (Found × Option Err))
          → recommend_loop verdict (r ∷ rs) (some x) ≡ o
          → ((qs : List TunedRecommend) (e' : Option Err) (ws : List Warning)
              → dup_loop fuel (recommend_loop verdict) first name qs (some x) ≡ some (e', ws)
              → e' ≡ some x)
          → e ≡ some x
      go none q ih = absurd (ground (arith, h, q))
      go (some (f, errv)) q ih =
          inner f.error f.rest refl refl (recommend_loop-keeps (r ∷ rs) f errv q)
        where
          inner :
              (fe : Option Err) (l : List TunedRecommend)
              → f.error ≡ fe
              → f.rest ≡ l
              → errv ≡ some x
              → e ≡ some x
          inner (some y) l a b c = ih rs e warnings (ground (arith, h, q, a, c))
          inner none [] a b c = ground (arith, h, q, a, b, c)
          inner none (d ∷ ds) a b c = elim (Option-cases (compare_rules first d name f.profile)) [
            | inl crash ↦ absurd (ground (arith, h, q, a, b, c, crash))
            | inr ((go_on, ws'), round) ↦
                elim (Option-cases
                  (dup_loop fuel (recommend_loop verdict) first name ds (some x))) [
                    | inl n ↦ ground (arith, h, q, a, b, c, n, round)
                    | inr ((e', ws), n) ↦ ground (arith, h, q, a, b, c, n, round, ih ds e' ws n)
                  ]
          ]

  verdict-failed :
      (q : TunedRecommend) (labels : Labels)
      → ¬ (ByLabels S s node nodes_get pools q)
      → q.machine_config_labels ≡ some labels
      → verdict q ≡ fetch_failed x
  unfolding rule_verdict
  verdict-failed q labels n m =
      rw (test-false S s node nodes_get pools q n, rule_verdict)
        (rw (m, rule_verdict) (rw (fetch-gone, rule_verdict)))

  -- The first round fails, and the loop goes on with the error.
  dup_loop-fails :
      (fuel : ℕ) (first q : TunedRecommend) (name : String) (rs : List TunedRecommend)
      → verdict q ≡ fetch_failed x
      → dup_loop (suc fuel) (recommend_loop verdict) first name (q ∷ rs) none
        ≡ dup_loop fuel (recommend_loop verdict) first name rs (some x)
  unfolding dup_loop recommend_loop
  dup_loop-fails fuel first q name rs h = rw (h, dup_loop)

  dup_loop-error :
      (fuel : ℕ) (first : TunedRecommend) (name : String) (rs : List TunedRecommend) (p : String)
      → first.profile ≡ some p
      → All (HasProfile S s node nodes_get pools) rs
      → (warnings : List Warning) × (dup_loop fuel (recommend_loop verdict) first name rs (some x)
          ≡ some (some x, warnings))
  dup_loop-error fuel first name rs p named h =
      elim (Option-cases (dup_loop fuel (recommend_loop verdict) first name rs (some x))) [
        | inl n ↦ absurd (
            dup_loop-total verdict fuel first name rs (some x) p named
              (All-IsDefined S s node nodes_get pools rs h) n)
        | inr ((e, ws), n) ↦
            (ws, n ∙ ap (λ o. some (o, ws)) (dup_loop-keeps fuel first name rs e ws n))
      ]

  -- If the node cannot be fetched, the first rule matches by labels, and the next one has only
  -- MachineConfig labels, then the error of the check for duplicates is returned beside the profile of
  -- the first rule, provided that the later rules name a profile.
  pub calculate_profile-dup_error :
      (tuneds : List Tuned) (default_get : Result Tuned) (r q : TunedRecommend)
      (rs : List TunedRecommend) (p : String) (labels : Labels)
      → tuned_recommend tuneds ≡ r ∷ (q ∷ rs)
      → ByLabels S s node nodes_get pools r
      → r.profile ≡ some p
      → ¬ (ByLabels S s node nodes_get pools q)
      → q.machine_config_labels ≡ some labels
      → All (HasProfile S s node nodes_get pools) rs
      → (warnings : List Warning) × (calculate_profile S s node nodes_get
            (ok tuneds)
            default_get
            pools
          ≡ some (
            selected S s node nodes_get pools r p none (tuned_profiles tuneds),
            some x,
            warnings,
          ))
  unfolding calculate_profile finish
  calculate_profile-dup_error tuneds default_get r q rs p labels sorted fits e misfits m h =
      let (errv, found) =
        loop_finds S s node nodes_get pools r (q ∷ rs) none p none (by_labels fits) e in
      let (warnings, end) = dup_loop-error (suc (length rs)) r p rs p e h in
      (
        warnings,
        rw (sorted, found, calculate_profile)
            (rw
              (
                dup_loop-fails (suc (length rs)) r q p rs (verdict-failed q labels misfits m),
                finish,
              )
              (rw end)),
      )
