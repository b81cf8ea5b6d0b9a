-- ===== src/Daemon/Control/Process.antt =====
-- pkg/tuned/controller.go: what a restart or reload leaves, and what it does to the process.
use mathlib.Core.List.{append-nil, append_assoc}
use cluster_node_tuning_oper.Base.{
  Bool, List, [], ◌∷◌, ◌++◌, if◌then◌else◌, sym, ◌∙◌, nat_eq, ◌≡◌, ◌≢◌, refl, arith, true, false,
  Bool-cases, inl, inr, Bool, ◌++◌, List, [],
}
use cluster_node_tuning_oper.Daemon.Status.{has_bit}
use cluster_node_tuning_oper.Daemon.Control.{
  Command, Action, process, sent, done, start, sighup, sigterm, sigkill, Control, System, fails,
  no_command, no_process, clear_bit, ctrl_reload, ctrl_restart, ctrl_debug, restart_or_reload,
  tuned_restart, tuned_reload, tuned_stop, tuned_start, Command, start, Action,
}
use cluster_node_tuning_oper.Daemon.Control.Bits.{Bits, clear_bit-reload, clear_bit-restart}

-- No signal fails for another reason than that the process has ended.
pub record Obeys (sys : System) : Type 0 where
  pub hups : sys.hup ≢ fails
  pub terms : sys.term ≢ fails
  pub kills : sys.kill ≢ fails

-- The signals that stop a process: SIGTERM, and SIGKILL if it does not end in time. A process that has
-- ended already gets none.
abbrev pub stop_signals : System → Command → List Action
stop_signals sys no_command = []
stop_signals sys no_process = []
stop_signals sys process = elim sys.term [
  | sent ↦ if sys.exits_in_time then sigterm ∷ [] else elim sys.kill [
    | sent ↦ sigterm ∷ sigkill ∷ []
    | done ↦ sigterm ∷ []
    | fails ↦ sigterm ∷ []
  ]
  | done ↦ []
  | fails ↦ []
]

-- What makes the daemon read its configuration: SIGHUP, or a start where no process runs.
abbrev pub reload_actions : System → Command → Bool → List Action
reload_actions sys no_command debug = start debug ∷ []
reload_actions sys no_process debug = []
reload_actions sys process debug = elim sys.hup [
  | sent ↦ sighup ∷ []
  | done ↦ start debug ∷ []
  | fails ↦ []
]

-- What is done to the daemon where a restart or a reload is asked for, and the debug mode.
abbrev pub actions : System → Command → Bool → Bool → Bool → List Action
actions sys c true reload debug = stop_signals sys c ++ start debug ∷ []
actions sys c false true debug = reload_actions sys c debug
actions sys c false false debug = []

-- What has become of a controller whose daemon is in step.
pub record Settled (sys : System) (c c' : Control) : Type 0 where
  pub bits : Bits c'.daemon.restart false false (has_bit c.daemon.restart ctrl_debug)
  pub recommended : c'.daemon.recommended_profile ≡ c.daemon.recommended_profile
  pub trace :
      c'.trace
      ≡ c.trace
        ++ actions sys c.command
            (has_bit c.daemon.restart ctrl_restart)
            (has_bit c.daemon.restart ctrl_reload)
            (has_bit c.daemon.restart ctrl_debug)

module _ (sys : System) (obeys : Obeys sys) where
  stop_lem :
      (c : Control)
      → c.command ≢ no_process
      → ((tuned_stop sys c).1 ≡ true)
        × ((tuned_stop sys c).0.daemon.restart ≡ c.daemon.restart)
        × ((tuned_stop sys c).0.daemon.recommended_profile ≡ c.daemon.recommended_profile)
        × ((tuned_stop sys c).0.command ≡ no_command)
        × ((tuned_stop sys c).0.trace ≡ c.trace ++ stop_signals sys c.command)
  unfolding tuned_stop
  stop_lem c n = (
    ground (arith, obeys.terms, obeys.kills),
    ground (arith, obeys.terms, obeys.kills),
    ground (arith, obeys.terms, obeys.kills),
    ground (arith, obeys.terms, obeys.kills),
    ground (
      arith,
      obeys.terms,
      obeys.kills,
      append-nil c.trace,
      append_assoc c.trace (sigterm ∷ []) (sigkill ∷ []),
    ),
  )

  reload_lem :
      (c : Control) (reload restart debug : Bool)
      → Bits c.daemon.restart reload restart debug
      → c.command ≢ no_process
      → ((tuned_reload sys c).1 ≡ true)
        × Bits (tuned_reload sys c).0.daemon.restart false restart debug
        × ((tuned_reload sys c).0.daemon.recommended_profile ≡ c.daemon.recommended_profile)
        × ((tuned_reload sys c).0.trace ≡ c.trace ++ reload_actions sys c.command debug)
  unfolding tuned_reload tuned_start
  reload_lem c reload restart debug b n =
      let (b0, b1, b2) = clear_bit-reload c.daemon.restart reload restart debug b in
      ground (arith, obeys.hups)

  restart_lem :
      (c : Control) (reload debug : Bool)
      → Bits c.daemon.restart reload true debug
      → c.command ≢ no_process
      → ((tuned_restart sys c).1 ≡ true)
        × Bits (tuned_restart sys c).0.daemon.restart false false debug
        × ((tuned_restart sys c).0.daemon.recommended_profile ≡ c.daemon.recommended_profile)
        × ((tuned_restart sys c).0.trace
            ≡ c.trace ++ (stop_signals sys c.command ++ start debug ∷ []))
  unfolding tuned_restart
  restart_lem c reload debug b n =
      let c' = record c {
        daemon = record c.daemon { restart = clear_bit c.daemon.restart ctrl_restart };
      } in
      let (ok, bits, name, none_left, stopped) = stop_lem c' n in
      let d = (tuned_stop sys c').0 in
      let (ok', bits', name', trace) =
        reload_lem d reload false debug
          (rw bits (clear_bit-restart c.daemon.restart reload true debug b)) (λ e. cc) in
      (
        ground (arith, ok, ok'),
        ground (arith, ok, bits'),
        ground (arith, ok, name, name'),
        rw ok (
            trace
            ∙ rw (none_left, stopped)
                (append_assoc c.trace (stop_signals sys c.command) (start debug ∷ []))),
      )

  -- No reload or restart is left to do.
  pub restart_or_reload-Settled :
      (c : Control)
      → c.command ≢ no_process
      → ((restart_or_reload sys c).1 ≡ true) × Settled sys c (restart_or_reload sys c).0
  unfolding restart_or_reload
  restart_or_reload-Settled c n =
      let bits = c.daemon.restart in
      let debug = has_bit bits ctrl_debug in
      elim (Bool-cases (has_bit bits ctrl_restart)) [
        | inl restart ↦
            let (ok, left, name, trace) =
              restart_lem c (has_bit bits ctrl_reload) debug (refl, restart, refl) n in
            rw (restart, restart_or_reload)
              (ok, record { bits = left; recommended = name; trace = rw restart trace })
        | inr no_restart ↦ elim (Bool-cases (has_bit bits ctrl_reload)) [
          | inl reload ↦
              let (ok, left, name, trace) =
                reload_lem c true false debug (reload, no_restart, refl) n in
              rw (no_restart, restart_or_reload)
                (rw (reload, restart_or_reload)
                  (
                    ok,
                    record {
                      bits = left;
                      recommended = name;
                      trace = rw (no_restart, reload) trace;
                    },
                  ))
          | inr no_reload ↦
              rw (no_restart, restart_or_reload)
                (rw (no_reload, restart_or_reload)
                  (
                    refl,
                    record {
                      bits = (no_reload, no_restart, refl);
                      recommended = refl;
                      trace = rw (no_restart, no_reload) (sym (append-nil c.trace));
                    },
                  ))
        ]
      ]
