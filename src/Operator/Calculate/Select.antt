-- ===== src/Operator/Calculate/Select.antt =====
-- pkg/operator/profilecalculator.go: how the loops of the two closures and the loop over duplicates run.
use cluster_node_tuning_oper.Base.{
  String, ℕ, zero, suc, ◌≤◌, ◌<◌, Option, none, some, List, [], ◌∷◌, ◌++◌, string_eq, nat_eq,
  length, ◌≡◌, ◌≢◌, refl, sym, ◌∙◌, ◌⊎◌, ap, arith, All, inl, inr, drop, subst,
}
use cluster_node_tuning_oper.Operator.Types.{TunedRecommend, TunedProfile, Err}
use cluster_node_tuning_oper.Operator.Calculate.{
  Found, compare_rules, dup_loop, Warning, Verdict, matched, skipped, fetched_skipped,
  fetched_matched, fetch_failed, crashed, recommend_loop, finish,
}

abbrev pub Skips : Verdict → Type 0
Skips v = (v ≡ skipped) ⊎ (v ≡ fetched_skipped)

-- The profile of a rule is set, and its verdict is no crash.
abbrev pub IsDefined : (TunedRecommend → Verdict) → TunedRecommend → Type 0
IsDefined verdict r = (r.profile ≢ none) × (verdict r ≢ crashed)

module _ (verdict : TunedRecommend → Verdict) where
  -- Rules that are skipped leave the loop as it is but for the variable `err`.
  pub recommend_loop-Skips :
      (pre rs : List TunedRecommend) (errv : Option Err)
      → All (λ r. Skips (verdict r)) pre
      → (errv' : Option Err) × (recommend_loop verdict (pre ++ rs) errv
          ≡ recommend_loop verdict rs errv')
  unfolding recommend_loop
  recommend_loop-Skips [] rs errv h = (errv, refl)
  recommend_loop-Skips (r ∷ pre) rs errv (inl e, h) = rw e (recommend_loop-Skips pre rs errv h)
  recommend_loop-Skips (r ∷ pre) rs errv (inr e, h) = rw e (recommend_loop-Skips pre rs none h)

  recommend_loop-total :
      (rs : List TunedRecommend) (errv : Option Err)
      → All (IsDefined verdict) rs
      → recommend_loop verdict rs errv ≢ none
  unfolding recommend_loop
  recommend_loop-total [] errv h = λ e. cc
  recommend_loop-total (r ∷ rs) errv (d, h) =
      go (verdict r) refl (λ errv'. recommend_loop-total rs errv' h)
    where
      go :
          (v : Verdict)
          → verdict r ≡ v
          → ((errv' : Option Err) → recommend_loop verdict rs errv' ≢ none)
          → recommend_loop verdict (r ∷ rs) errv ≢ none
      go (matched labels pool) e ih = rw (e, recommend_loop) (ground (arith, d.0))
      go skipped e ih = rw (e, recommend_loop) (ih errv)
      go fetched_skipped e ih = rw (e, recommend_loop) (ih none)
      go (fetched_matched labels) e ih = rw (e, recommend_loop) (ground (arith, d.0))
      go (fetch_failed x) e ih = rw (e, recommend_loop) (ground arith)
      go crashed e ih = absurd (d.1 e)

  -- The rules from the one that is found on are the end of the rules.
  recommend_loop-rest :
      (rs : List TunedRecommend) (errv : Option Err) (f : Found) (e : Option Err)
      → recommend_loop verdict rs errv ≡ some (f, e)
      → (k : ℕ) × (f.rest ≡ drop k rs)
  unfolding recommend_loop
  recommend_loop-rest [] errv f e h = (0, ground arith)
  recommend_loop-rest (r ∷ rs) errv f e h =
      go (verdict r) refl (λ errv'. recommend_loop-rest rs errv' f e)
    where
      go :
          (v : Verdict)
          → verdict r ≡ v
          → ((errv' : Option Err)
              → recommend_loop verdict rs errv' ≡ some (f, e)
              → (k : ℕ) × (f.rest ≡ drop k rs))
          → (k : ℕ) × (f.rest ≡ drop k (r ∷ rs))
      go (matched labels pool) q ih = (0, ground (arith, h, q))
      go skipped q ih = let (k, i) = ih errv (ground (arith, h, q)) in (suc k, i)
      go fetched_skipped q ih = let (k, i) = ih none (ground (arith, h, q)) in (suc k, i)
      go (fetched_matched labels) q ih = (0, ground (arith, h, q))
      go (fetch_failed x) q ih = (0, ground (arith, h, q))
      go crashed q ih = absurd (ground (arith, h, q))

  All-drop {κ} :
      (P : TunedRecommend → Type κ) (k : ℕ) (rs : List TunedRecommend)
      → All P rs
      → All P (drop k rs)
  All-drop P zero rs h = h
  All-drop P (suc k) [] h = h
  All-drop P (suc k) (r ∷ rs) h = All-drop P k rs h.1

  All-tail {κ} :
      (P : TunedRecommend → Type κ) (k : ℕ) (q : TunedRecommend) (qs rs : List TunedRecommend)
      → (q ∷ qs) ≡ drop k rs
      → All P rs
      → All P qs
  All-tail P k q qs rs e h = (subst (λ l. All P l) (sym e) (All-drop P k rs h)).1

  compare_rules-total :
      (first other : TunedRecommend) (name dup p : String)
      → first.profile ≡ some p
      → compare_rules first other name dup ≢ none
  unfolding compare_rules
  compare_rules-total first other name dup p e = λ h. ground arith

  -- The loop over duplicates dereferences no nil pointer, if the first rule names a profile.
  pub dup_loop-total :
      (fuel : ℕ) (first : TunedRecommend) (name : String) (rs : List TunedRecommend)
      (errv : Option Err) (p : String)
      → first.profile ≡ some p
      → All (IsDefined verdict) rs
      → dup_loop fuel (recommend_loop verdict) first name rs errv ≢ none
  unfolding dup_loop
  dup_loop-total zero first name rs errv p named h = λ e. cc
  dup_loop-total (suc fuel) first name [] errv p named h = λ e. cc
  dup_loop-total (suc fuel) first name (r ∷ rs) errv p named h =
      go (recommend_loop verdict (r ∷ rs) errv) refl
        (λ qs errv' h'. dup_loop-total fuel first name qs errv' p named h')
    where
      go :
          (x : Option (Found × Option Err))
          → recommend_loop verdict (r ∷ rs) errv ≡ x
          → ((qs : List TunedRecommend) (errv' : Option Err)
              → All (IsDefined verdict) qs
              → dup_loop fuel (recommend_loop verdict) first name qs errv' ≢ none)
          → dup_loop (suc fuel) (recommend_loop verdict) first name (r ∷ rs) errv ≢ none
      go none e ih = absurd (recommend_loop-total (r ∷ rs) errv h e)
      go (some (f, errv')) e ih = inner f.rest refl
        where
          inner :
              (l : List TunedRecommend)
              → f.rest ≡ l
              → dup_loop (suc fuel) (recommend_loop verdict) first name (r ∷ rs) errv ≢ none
          inner [] q = rw (e, dup_loop) (ground (arith, q, ih rs errv' h.1))
          inner (q ∷ qs) l =
              let (k, i) = recommend_loop-rest (r ∷ rs) errv f errv' e in
              rw (e, dup_loop)
                (ground (
                  arith,
                  l,
                  compare_rules-total first q name f.profile p named,
                  ih rs errv' h.1,
                  ih qs errv' (All-tail (IsDefined verdict) k q qs (r ∷ rs) (sym l ∙ i) h),
                ))

  length-drop : (k : ℕ) (rs : List TunedRecommend) → length (drop k rs) ≤ length rs
  length-drop zero rs = omega arith
  length-drop (suc k) [] = omega arith
  length-drop (suc k) (r ∷ rs) = omega (arith, length-drop k rs)

  -- The fuel of the loop over duplicates is no bound: any fuel above the number of rules gives the
  -- same.
  pub dup_loop-fuel :
      (f g : ℕ) (first : TunedRecommend) (name : String) (rs : List TunedRecommend)
      (errv : Option Err)
      → length rs < f
      → length rs < g
      → dup_loop f (recommend_loop verdict) first name rs errv
        ≡ dup_loop g (recommend_loop verdict) first name rs errv
  unfolding dup_loop
  dup_loop-fuel zero g first name rs errv h k = absurd (omega arith)
  dup_loop-fuel (suc f) zero first name rs errv h k = absurd (omega arith)
  dup_loop-fuel (suc f) (suc g) first name [] errv h k = refl
  dup_loop-fuel (suc f) (suc g) first name (r ∷ rs) errv h k =
      go (recommend_loop verdict (r ∷ rs) errv) refl
        (λ qs errv' m. dup_loop-fuel f g first name qs errv' (omega arith) (omega arith))
    where
      go :
          (x : Option (Found × Option Err))
          → recommend_loop verdict (r ∷ rs) errv ≡ x
          → ((qs : List TunedRecommend) (errv' : Option Err)
              → length qs ≤ length rs
              → dup_loop f (recommend_loop verdict) first name qs errv'
                ≡ dup_loop g (recommend_loop verdict) first name qs errv')
          → dup_loop (suc f) (recommend_loop verdict) first name (r ∷ rs) errv
            ≡ dup_loop (suc g) (recommend_loop verdict) first name (r ∷ rs) errv
      go none e ih = rw (e, dup_loop)
      go (some (x, errv')) e ih = inner x.rest refl
        where
          inner :
              (l : List TunedRecommend)
              → x.rest ≡ l
              → dup_loop (suc f) (recommend_loop verdict) first name (r ∷ rs) errv
                ≡ dup_loop (suc g) (recommend_loop verdict) first name (r ∷ rs) errv
          inner [] q = rw (e, dup_loop) (ground (arith, q, ih rs errv' (omega arith)))
          inner (q ∷ qs) p =
              let (n, i) = recommend_loop-rest (r ∷ rs) errv x errv' e in
              let shorter : length qs ≤ length rs =
                omega (arith, ap length (sym p ∙ i), length-drop n (r ∷ rs)) in
              rw (e, dup_loop) (ground (arith, p, ih rs errv' (omega arith), ih qs errv' shorter))

  -- What is found first is returned, with an error and warnings that the loop over duplicates gives.
  pub finish-found :
      (profiles : List TunedProfile) (f : Found) (errv : Option Err) (first : TunedRecommend)
      (behind : List TunedRecommend)
      → (p : String) → f.rest ≡ first ∷ behind
      → first.profile ≡ some p
      → All (IsDefined verdict) behind
      → (e : Option Err) × (warnings : List Warning) × (finish verdict profiles (f, errv)
          ≡ some (
            record {
              tuned_profile_name = f.profile;
              all_profiles = profiles;
              mc_labels = f.mc_labels;
              node_pool_name = f.node_pool_name;
              operand = f.operand;
            },
            e,
            warnings,
          ))
  unfolding finish
  finish-found profiles f errv first behind p h named d =
      go (dup_loop (suc (length behind)) (recommend_loop verdict) first f.profile behind f.error)
        refl
    where
      go :
          (x : Option (Option Err × List Warning))
          → dup_loop (suc (length behind)) (recommend_loop verdict) first f.profile behind f.error
            ≡ x
          → (e : Option Err) × (warnings : List Warning) × (finish verdict profiles (f, errv)
              ≡ some (
                record {
                  tuned_profile_name = f.profile;
                  all_profiles = profiles;
                  mc_labels = f.mc_labels;
                  node_pool_name = f.node_pool_name;
                  operand = f.operand;
                },
                e,
                warnings,
              ))
      go none q =
          absurd (dup_loop-total (suc (length behind)) first f.profile behind f.error p named d q)
      go (some (e, warnings)) q = (e, warnings, rw (h, finish) (rw q))
