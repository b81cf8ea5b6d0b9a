-- ===== src/Daemon/Retry.antt =====
-- pkg/tuned/controller.go: retryLoop round changeWatcher. Times are in seconds.
pub mod Laws
use cluster_node_tuning_oper.Base.{
  ℕ, zero, suc, ◌*◌, ◌-◌, ◌+◌, leb, Bool, true, false, List, [], ◌∷◌, if◌then◌else◌,
}

abbrev pub errs_max : ℕ
errs_max = 5

abbrev pub sleep_retry_init : ℕ
sleep_retry_init = 10

-- (10 * 2^5 - 10) + 5 * 60
abbrev pub errs_max_within_seconds : ℕ
errs_max_within_seconds = 610

pub record Loop : Type 0 where
  pub errs : ℕ
  pub sleep_retry : ℕ
  pub errs_time_start : ℕ

abbrev pub begin : ℕ → Loop
begin now = record { errs = 0; sleep_retry = sleep_retry_init; errs_time_start = now }

-- How changeWatcher ends: without an error, or with one, and then at which time it is found, at which
-- time the loop starts over counting, and whether a stop is asked for before the wait and during it.
pub data Exit : Type 0 where
  success : Exit
  failure : ℕ → ℕ → Bool → Bool → Exit

-- What the loop does: it returns, with no error or with that of changeWatcher, or it waits for some
-- seconds and goes on.
pub data Next : Type 0 where
  returns : Bool → Next
  waits : ℕ → Loop → Next

-- The number of errors and the period after one more error; at the limit, whether to give up.
unfoldable pub count_error : ℕ → ℕ → Loop → Bool × Loop
count_error now restart_at st =
    let errs = suc st.errs in
    let st' : Loop = record st { errs = errs; sleep_retry = st.sleep_retry * 2 } in
    if leb errs_max errs
    then (if leb (now - st.errs_time_start) errs_max_within_seconds
        then (true, st')
        else (false, begin restart_at))
    else (false, st')

unfoldable pub retry_step : Exit → Loop → Next
retry_step success st = returns true
retry_step (failure now restart_at stop stop_in_wait) st =
    if stop
    then returns false
    else let (give_up, st') = count_error now restart_at st in
      if give_up
      then returns false
      else if stop_in_wait
      then returns true
      else waits st'.sleep_retry st'

-- The loop over the exits of changeWatcher: what it returns, none where it is still running, and the
-- periods that it waits.
unfoldable pub retry_loop : List Exit → Loop → Next × List ℕ
retry_loop [] st = (waits st.sleep_retry st, [])
retry_loop (e ∷ es) st = elim (retry_step e st) [
  | returns ok ↦ (returns ok, [])
  | waits period st' ↦ let (next, periods) = retry_loop es st' in (next, period ∷ periods)
]
