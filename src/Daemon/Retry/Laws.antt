-- ===== src/Daemon/Retry/Laws.antt =====
-- pkg/tuned/controller.go: how long retryLoop waits, and when it gives up.
use cluster_node_tuning_oper.Base.{
  ℕ, zero, suc, ◌+◌, ◌*◌, ◌≤◌, ◌<◌, ◌≡◌, refl, arith, Bool, true, false, List, [], ◌∷◌, All,
  Bool-cases, subst, inl, sym, inr, ◌⊎◌,
}
use cluster_node_tuning_oper.Daemon.Retry.{
  Exit, success, failure, returns, waits, Loop, begin, count_error, retry_step, retry_loop,
  errs_max, errs_max_within_seconds,
}

-- The period after some errors that count.
abbrev period : ℕ → ℕ
period zero = 10
period (suc n) = 2 * period n

abbrev IsCounting : Loop → Type 0
IsCounting st = (st.errs < errs_max) × (st.sleep_retry ≡ period st.errs)

count_error-IsCounting :
    (now restart_at errs start : ℕ)
    → errs < errs_max
    → let (give_up, st) =
        count_error now restart_at
          (record { errs = errs; sleep_retry = period errs; errs_time_start = start }) in
      give_up ≡ false → IsCounting st × (10 ≤ st.sleep_retry) × (st.sleep_retry ≤ 160)
unfolding count_error
count_error-IsCounting now r zero start lt h = omega arith
count_error-IsCounting now r (suc zero) start lt h = omega arith
count_error-IsCounting now r (suc (suc zero)) start lt h = omega arith
count_error-IsCounting now r (suc (suc (suc zero))) start lt h = omega arith
count_error-IsCounting now r (suc (suc (suc (suc zero)))) start lt h = ground arith
count_error-IsCounting now r (suc (suc (suc (suc (suc n))))) start lt h = absurd (omega arith)

count_error-keeps :
    (now restart_at : ℕ) (st : Loop)
    → IsCounting st
    → let (give_up, st') = count_error now restart_at st in
      give_up ≡ false → IsCounting st' × (10 ≤ st'.sleep_retry) × (st'.sleep_retry ≤ 160)
count_error-keeps now r st (c, q) =
    subst
      (λ (k : ℕ).
        (count_error now r (record st { sleep_retry = k })).0 ≡ false
        → IsCounting (count_error now r (record st { sleep_retry = k })).1
          × (10 ≤ (count_error now r (record st { sleep_retry = k })).1.sleep_retry)
          × ((count_error now r (record st { sleep_retry = k })).1.sleep_retry ≤ 160))
      (sym q) (count_error-IsCounting now r st.errs st.errs_time_start c)

-- A step returns, or waits for a period within the bounds.
step_cases :
    (e : Exit) (st : Loop)
    → IsCounting st
    → ((ok : Bool) × (retry_step e st ≡ returns ok))
      ⊎ ((p : ℕ) × (st' : Loop) × (retry_step e st ≡ waits p st')
          × IsCounting st'
          × (10 ≤ p)
          × (p ≤ 160))
unfolding retry_step
step_cases success st c = inl (true, refl)
step_cases (failure now r true wait) st c = inl (false, refl)
step_cases (failure now r false wait) st c = elim (Bool-cases (count_error now r st).0) [
  | inl gives_up ↦ inl (false, ground arith)
  | inr goes_on ↦ elim (Bool-cases wait) [
    | inl stop ↦ inl (true, ground arith)
    | inr no_stop ↦
        let st' = (count_error now r st).1 in
        let (c', lo, hi) = count_error-keeps now r st c goes_on in
        inr (st'.sleep_retry, st', ground arith, c', lo, hi)
  ]
]

loop_waits :
    (exits : List Exit) (st : Loop)
    → IsCounting st
    → All (λ p. (10 ≤ p) × (p ≤ 160)) (retry_loop exits st).1
unfolding retry_loop
loop_waits [] st c = tt
loop_waits (e ∷ es) st c = elim (step_cases e st c) [
  | inl (ok, h) ↦ rw (h, retry_loop) tt
  | inr (p, st', h, c', lo, hi) ↦ rw (h, retry_loop) ((lo, hi), loop_waits es st' c')
]

-- A wait takes 10 seconds at least and 160 at most, whatever errors there are and at
-- whatever times.
pub retry_loop-waits :
    (exits : List Exit) (now : ℕ) → All (λ p. (10 ≤ p) × (p ≤ 160)) (retry_loop exits (begin now)).1
retry_loop-waits exits now = loop_waits exits (begin now) (omega arith)

-- Five errors in a row, found within 610 seconds from the start, end the loop with the last error, unless a stop is asked for earlier;
-- the waits between them take 20, 40, 80 and 160 seconds.
pub retry_loop-gives_up :
    (now t1 t2 t3 t4 t5 r1 r2 r3 r4 r5 : ℕ) (stop : Bool) (rest : List Exit)
    → t5 ≤ now + errs_max_within_seconds
    → retry_loop
        (failure t1 r1 false false
          ∷ failure t2 r2 false false
          ∷ failure t3 r3 false false
          ∷ failure t4 r4 false false
          ∷ failure t5 r5 false stop
          ∷ rest)
        (begin now)
      ≡ (returns false, 20 ∷ 40 ∷ 80 ∷ 160 ∷ [])
unfolding retry_loop retry_step count_error
retry_loop-gives_up now t1 t2 t3 t4 t5 r1 r2 r3 r4 r5 stop rest h = ground arith
