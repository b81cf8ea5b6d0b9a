-- ===== src/Daemon/Control/Failures.antt =====
-- pkg/tuned/controller.go: a signal that fails though the process has not ended.
use cluster_node_tuning_oper.Base.{nat_eq, ◌≡◌, refl, arith, true, false}
use cluster_node_tuning_oper.Daemon.Status.{has_bit, sc_reloading}
use cluster_node_tuning_oper.Daemon.Control.{
  Control, System, fails, process, no_command, set_bit, ctrl_reload, ctrl_restart, ctrl_debug,
  restart_or_reload, tuned_restart, tuned_reload, tuned_stop,
}
use cluster_node_tuning_oper.Daemon.Control.Bits.{Bits, clear_bit-reload, clear_bit-restart}

reloading_status : has_bit (set_bit 0 sc_reloading) sc_reloading ≡ true
reloading_status = unfold set_bit in unfold has_bit in unfold nat_eq in refl

-- A restart or reload whose signal fails is an error, and it is forgotten. If SIGTERM fails, the restart bit is cleared,
-- the command is given up, and nothing is started. If SIGHUP fails, the reload bit is cleared and the daemon
-- counts as reloading, though no signal has reached it. In both cases the debug bit stays and the trace of actions is what it was.
pub restart_or_reload-forgets :
    (sys : System) (c : Control)
    → c.command ≡ process
    → (sys.term ≡ fails
        → has_bit c.daemon.restart ctrl_restart ≡ true
        → let (c', ok) = restart_or_reload sys c in
          (ok ≡ false)
          × (c'.command ≡ no_command)
          × (c'.trace ≡ c.trace)
          × Bits c'.daemon.restart
              (has_bit c.daemon.restart ctrl_reload)
              false
              (has_bit c.daemon.restart ctrl_debug))
      × (sys.hup ≡ fails
          → has_bit c.daemon.restart ctrl_restart ≡ false
          → has_bit c.daemon.restart ctrl_reload ≡ true
          → let (c', ok) = restart_or_reload sys c in
            (ok ≡ false)
            × (has_bit c'.daemon.status sc_reloading ≡ true)
            × (c'.trace ≡ c.trace)
            × Bits c'.daemon.restart false false (has_bit c.daemon.restart ctrl_debug))
unfolding restart_or_reload tuned_restart tuned_reload tuned_stop
restart_or_reload-forgets sys c e =
    let bits = c.daemon.restart in
    (
      λ f r. ground (
        arith,
        clear_bit-restart bits (has_bit bits ctrl_reload) true (has_bit bits ctrl_debug)
            (refl, r, refl),
      ),
      λ f n r. ground (
        arith,
        reloading_status,
        clear_bit-reload bits true false (has_bit bits ctrl_debug) (r, n, refl),
      ),
    )
