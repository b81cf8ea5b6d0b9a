-- ===== src/Daemon/Queue/Retries.antt =====
-- pkg/tuned/controller.go: how often an item is tried.
use cluster_node_tuning_oper.Base.{
  ℕ, zero, suc, ◌+◌, ◌≤◌, ◌<◌, ◌≡◌, refl, arith, Bool, true, false, List, [], ◌∷◌, length, All, ◌⊎◌,
  inl, inr, ◌++◌,
}
use cluster_node_tuning_oper.Daemon.Queue.{
  processed, dropped, settle, event_processor_kube, event_processor_tuned, rounds, max_retries,
}

rounds-bound :
    (left requeues : ℕ) (oks : List Bool)
    → left + requeues ≡ max_retries
    → left < length oks
    → let (fate, n) = rounds event_processor_kube oks requeues in
      ((fate ≡ processed) ⊎ (fate ≡ dropped)) × (n ≤ suc left)
unfolding rounds event_processor_kube settle
rounds-bound left requeues [] e lt = absurd (omega arith)
rounds-bound left requeues (true ∷ oks) e lt = (inl refl, omega arith)
rounds-bound zero requeues (false ∷ oks) e lt = (inr (ground arith), ground arith)
rounds-bound (suc left) requeues (false ∷ oks) e lt =
    ground (arith, rounds-bound left (suc requeues) oks (omega arith) (omega arith))

-- A new item on the queue of Kubernetes events is gone after at most 16 rounds, processed or dropped, however the attempts turn
-- out.
pub rounds-gone :
    (oks : List Bool)
    → suc max_retries ≤ length oks
    → let (fate, n) = rounds event_processor_kube oks 0 in
      ((fate ≡ processed) ⊎ (fate ≡ dropped)) × (n ≤ suc max_retries)
rounds-gone oks h = rounds-bound max_retries 0 oks refl h

reloading_rounds :
    (waits : List (Bool × Bool)) (requeues : ℕ) (rest : List (Bool × Bool))
    → All (λ (reloading, _). reloading ≡ true) waits
    → max_retries ≤ length waits + requeues
    → rounds event_processor_tuned (waits ++ (false, false) ∷ rest) requeues
      ≡ (dropped, suc (length waits))
unfolding rounds event_processor_tuned settle
reloading_rounds [] requeues rest h le = ground arith
reloading_rounds ((r, ok) ∷ waits) requeues rest (h, hs) le =
    rw h (ground (arith, reloading_rounds waits (suc requeues) rest hs (omega arith)))

-- Waiting for the daemon uses up the retries: a change that was queued again max_retries times or more because the daemon was reloading
-- is dropped by its first failed attempt.
pub rounds-used_up :
    (waits : List (Bool × Bool)) (rest : List (Bool × Bool))
    → All (λ (reloading, _). reloading ≡ true) waits
    → max_retries ≤ length waits
    → rounds event_processor_tuned (waits ++ (false, false) ∷ rest) 0
      ≡ (dropped, suc (length waits))
rounds-used_up waits rest h le = reloading_rounds waits 0 rest h (omega arith)
