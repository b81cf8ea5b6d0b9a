-- ===== src/Daemon/Control.antt =====
-- pkg/tuned/controller.go: the state of the operand's controller, and how it stops, reloads and
-- restarts the TuneD daemon. What the operating system answers to signals is a parameter.
pub mod Bits
pub mod Process
pub mod Failures
use cluster_node_tuning_oper.Base.{
  ℕ, zero, suc, nat_eq, ◌==◌, Bool, true, false, List, [], ◌∷◌, ◌++◌, Option, none, some, String,
  ◌-◌, ◌+◌, if◌then◌else◌,
}
use cluster_node_tuning_oper.Daemon.Builtin.{Bytes}
use cluster_node_tuning_oper.Daemon.Status.{has_bit, sc_reloading}

abbrev pub ctrl_reload : ℕ
ctrl_reload = 1

abbrev pub ctrl_restart : ℕ
ctrl_restart = 2

abbrev pub ctrl_debug : ℕ
ctrl_debug = 4

-- `bits |= bit`
unfoldable pub set_bit : ℕ → ℕ → ℕ
set_bit bits bit = if has_bit bits bit then bits else bits + bit

-- `bits &= ^bit`
unfoldable pub clear_bit : ℕ → ℕ → ℕ
clear_bit bits bit = if has_bit bits bit then bits - bit else bits

-- Daemon
pub record Daemon : Type 0 where
  pub restart : ℕ
  pub status : ℕ
  pub stderr : Bytes
  pub stopping : Bool
  pub recommended_profile : Bytes

-- tunedCmd: nil, with no process, or with one.
pub data Command : Type 0 where
  no_command no_process process : Command

-- What is done to the process; a start says whether it is in debug mode.
pub data Action : Type 0 where
  start : Bool → Action
  sighup sigterm sigkill : Action

-- The answer to a signal.
pub data Answer : Type 0 where
  sent done fails : Answer

pub record System : Type 0 where
  pub hup : Answer
  pub term : Answer
  pub kill : Answer
  pub exits_in_time : Bool

pub record Control : Type 0 where
  pub daemon : Daemon
  pub command : Command
  pub trace : List Action

abbrev act : Action → Control → Control
act a c = record c { trace = c.trace ++ a ∷ [] }

-- tunedStart of tunedReload: TunedCreateCmdline with the debug bit, and tunedRun in its own goroutine.
unfoldable pub tuned_start : Control → Control
tuned_start c =
    act (start (has_bit c.daemon.restart ctrl_debug)) (record c { command = no_process })

-- The deferred function of tunedStop; the flag says whether there is no error.
abbrev stopped : Control → Bool → Control × Bool
stopped c ok =
    (record c { daemon = record c.daemon { stopping = false }; command = no_command }, ok)

unfoldable pub tuned_stop : System → Control → Control × Bool
tuned_stop sys c = elim c.command [
  | no_command ↦ stopped c true
  | no_process ↦ stopped c false
  | process ↦ elim sys.term [
    | done ↦ stopped c true
    | fails ↦ stopped c false
    | sent ↦ elim sys.exits_in_time [
      | true ↦ stopped (act sigterm c) true
      | false ↦ elim sys.kill [
        | done ↦ stopped (act sigterm c) true
        | fails ↦ stopped (act sigterm c) false
        | sent ↦ stopped (act sigkill (act sigterm c)) true
      ]
    ]
  ]
]

unfoldable pub tuned_reload : System → Control → Control × Bool
tuned_reload sys c =
    let c' = record c {
      daemon = record c.daemon {
        status = set_bit 0 sc_reloading;
        stderr = [];
        restart = clear_bit c.daemon.restart ctrl_reload;
      };
    } in
    elim c.command [
      | no_command ↦ (tuned_start c', true)
      | no_process ↦ (c', false)
      | process ↦ elim sys.hup [
        | sent ↦ (act sighup c', true)
        | done ↦ (tuned_start c', true)
        | fails ↦ (c', false)
      ]
    ]

unfoldable pub tuned_restart : System → Control → Control × Bool
tuned_restart sys c =
    let c' = record c {
      daemon = record c.daemon { restart = clear_bit c.daemon.restart ctrl_restart };
    } in
    let (c'', ok) = tuned_stop sys c' in if ok then tuned_reload sys c'' else (c'', false)

-- changeSyncerRestartOrReloadTuneD
unfoldable pub restart_or_reload : System → Control → Control × Bool
restart_or_reload sys c =
    if has_bit c.daemon.restart ctrl_restart
    then tuned_restart sys c
    else if has_bit c.daemon.restart ctrl_reload
    then tuned_reload sys c
    else (c, true)
