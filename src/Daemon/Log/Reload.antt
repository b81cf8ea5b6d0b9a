-- ===== src/Daemon/Log/Reload.antt =====
-- pkg/tuned/run.go: how the end of a reload is noticed.
use cluster_node_tuning_oper.Base.{
  ℕ, nat_eq, list_eq, ◌≡◌, arith, ◌&&◌, not, Bool, false, List, [], ◌∷◌, some, if◌then◌else◌, any,
  Option-cases, inl, inr, ◌∙◌,
}
use cluster_node_tuning_oper.Daemon.Builtin.{Bytes}
use cluster_node_tuning_oper.Daemon.Status.{
  has_bit, sc_applied, sc_warn, sc_error, sc_sysctl_override, sc_reloading,
}
use cluster_node_tuning_oper.Daemon.Control.{Daemon, set_bit, clear_bit}
use cluster_node_tuning_oper.Daemon.Log.{
  log_line, log_lines, note_applied, note_warning, note_error, note_sysctl, note_reloaded, reloaded,
  overriden_sysctl,
}

set_bit-reloading :
    (n : ℕ)
    → (has_bit (set_bit n sc_applied) sc_reloading ≡ has_bit n sc_reloading)
      × (has_bit (set_bit n sc_warn) sc_reloading ≡ has_bit n sc_reloading)
      × (has_bit (set_bit n sc_error) sc_reloading ≡ has_bit n sc_reloading)
      × (has_bit (set_bit n sc_sysctl_override) sc_reloading ≡ has_bit n sc_reloading)
unfolding set_bit has_bit
set_bit-reloading n = ground arith

clear_bit-reloading : (n : ℕ) → has_bit (clear_bit n sc_reloading) sc_reloading ≡ false
unfolding clear_bit has_bit
clear_bit-reloading n = ground arith

-- The bit, and the flag for stopping, are kept.
abbrev Keeps : Daemon → Daemon → Type 0
Keeps d d' =
    (has_bit d'.status sc_reloading ≡ has_bit d.status sc_reloading) × (d'.stopping ≡ d.stopping)

applied-Keeps : (l : Bytes) (d : Daemon) → Keeps d (note_applied l d)
unfolding note_applied
applied-Keeps l d = ground (arith, set_bit-reloading d.status)

warning-Keeps : (l : Bytes) (d : Daemon) → Keeps d (note_warning l d)
unfolding note_warning
warning-Keeps l d = ground (arith, set_bit-reloading d.status)

error-Keeps : (l : Bytes) (d : Daemon) → Keeps d (note_error l d)
unfolding note_error
error-Keeps l d = ground (arith, set_bit-reloading d.status)

sysctl-Keeps : (sysctl : Bytes) (d : Daemon) → Keeps d (note_sysctl sysctl d)
unfolding note_sysctl
sysctl-Keeps sysctl d = ground (arith, set_bit-reloading d.status)

-- One line, where the daemon is not being stopped.
line_lem :
    (l : Bytes) (d d' : Daemon) (called : Bool)
    → d.stopping ≡ false
    → log_line l d ≡ some (d', called)
    → (called ≡ (has_bit d.status sc_reloading && reloaded l))
      × (has_bit d'.status sc_reloading ≡ (has_bit d.status sc_reloading && not (reloaded l)))
      × (d'.stopping ≡ false)
unfolding log_line note_reloaded
line_lem l d d' called runs e = elim (Option-cases (overriden_sysctl l)) [
  | inl crash ↦ ground arith
  | inr (sysctl, found) ↦
      let d1 = note_applied l d in
      let d2 = note_warning l d1 in
      let d3 = note_error l d2 in
      let d4 = note_sysctl sysctl d3 in
      let (k1, s1) = applied-Keeps l d in
      let (k2, s2) = warning-Keeps l d1 in
      let (k3, s3) = error-Keeps l d2 in
      let (k4, s4) = sysctl-Keeps sysctl d3 in
      let same : has_bit d4.status sc_reloading ≡ has_bit d.status sc_reloading =
        k4 ∙ k3 ∙ k2 ∙ k1 in
      let runs' : d4.stopping ≡ false = s4 ∙ s3 ∙ s2 ∙ s1 ∙ runs in
      ground (arith, clear_bit-reloading d4.status)
]

-- Whatever lines the daemon logs, the end of a reload is reported exactly once if one of the lines announces it while the daemon
-- is reloading, and not at all otherwise; afterwards the daemon counts as reloading exactly if it did and no line
-- announced the end. The daemon is not being stopped, and no line makes the parser of sysctls panic.
pub log_lines-reload :
    (ls : List Bytes) (d d' : Daemon) (n : ℕ)
    → d.stopping ≡ false
    → log_lines ls d ≡ some (d', n)
    → (n ≡ (if has_bit d.status sc_reloading && any reloaded ls then 1 else 0))
      × (has_bit d'.status sc_reloading ≡ (has_bit d.status sc_reloading && not (any reloaded ls)))
unfolding log_lines
log_lines-reload [] d d' n runs e = ground arith
log_lines-reload (l ∷ ls) d d' n runs e = elim (Option-cases (log_line l d)) [
  | inl crash ↦ ground arith
  | inr ((d1, called), h) ↦ elim (Option-cases (log_lines ls d1)) [
    | inl crash ↦ ground arith
    | inr ((d2, m), h') ↦
        let (c, bit, runs') = line_lem l d d1 called runs h in
        let (count, bit') = log_lines-reload ls d1 d2 m runs' h' in ground arith
  ]
]
