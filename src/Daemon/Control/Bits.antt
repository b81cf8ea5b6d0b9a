-- ===== src/Daemon/Control/Bits.antt =====
-- pkg/tuned/controller.go: what setting and clearing a bit does to the three control bits, and the
-- reload bit of the status.
use cluster_node_tuning_oper.Base.{ℕ, nat_eq, ◌≡◌, refl, arith, Bool, true, false}
use cluster_node_tuning_oper.Daemon.Status.{has_bit}
use cluster_node_tuning_oper.Daemon.Control.{
  set_bit, clear_bit, ctrl_reload, ctrl_restart, ctrl_debug,
}

-- The bits for a reload, a restart and the debug mode.
abbrev pub Bits : ℕ → Bool → Bool → Bool → Type 0
Bits n reload restart debug =
    (has_bit n ctrl_reload ≡ reload)
    × (has_bit n ctrl_restart ≡ restart)
    × (has_bit n ctrl_debug ≡ debug)

pub Bits-refl :
    (n : ℕ) → Bits n (has_bit n ctrl_reload) (has_bit n ctrl_restart) (has_bit n ctrl_debug)
Bits-refl n = (refl, refl, refl)

pub set_bit-reload :
    (n : ℕ) (reload restart debug : Bool)
    → Bits n reload restart debug
    → Bits (set_bit n ctrl_reload) true restart debug
unfolding has_bit set_bit
set_bit-reload n reload restart debug h = ground arith

pub set_bit-restart :
    (n : ℕ) (reload restart debug : Bool)
    → Bits n reload restart debug
    → Bits (set_bit n ctrl_restart) reload true debug
unfolding has_bit set_bit
set_bit-restart n reload restart debug h = ground arith

pub set_bit-debug :
    (n : ℕ) (reload restart debug : Bool)
    → Bits n reload restart debug
    → Bits (set_bit n ctrl_debug) reload restart true
unfolding has_bit set_bit
set_bit-debug n reload restart debug h = ground arith

pub clear_bit-reload :
    (n : ℕ) (reload restart debug : Bool)
    → Bits n reload restart debug
    → Bits (clear_bit n ctrl_reload) false restart debug
unfolding has_bit clear_bit
clear_bit-reload n reload restart debug h = ground arith

pub clear_bit-restart :
    (n : ℕ) (reload restart debug : Bool)
    → Bits n reload restart debug
    → Bits (clear_bit n ctrl_restart) reload false debug
unfolding has_bit clear_bit
clear_bit-restart n reload restart debug h = ground arith

pub clear_bit-debug :
    (n : ℕ) (reload restart debug : Bool)
    → Bits n reload restart debug
    → Bits (clear_bit n ctrl_debug) reload restart false
unfolding has_bit clear_bit
clear_bit-debug n reload restart debug h = ground arith
