-- ===== src/Tests/Daemon.antt =====
-- pkg/tuned/controller.go and run.go, the daemon's process, queues, log and reports, at concrete inputs.
use cluster_node_tuning_oper.Base.{
  nat_eq, list_eq, string_eq, ◌≡◌, refl, arith, Bool, true, false, List, [], ◌∷◌, ◌++◌, none, some,
  utf8, String, ◌↔◌, ◌⊎◌, ◌==◌, All, length, drop, any, ◌&&◌, not, ◌≤◌, ◌<◌, ◌+◌, ℕ, suc,
  if◌then◌else◌,
}
use cluster_node_tuning_oper.Base.Dict.{lookup}
use cluster_node_tuning_oper.Daemon.Builtin.{Bytes}
use cluster_node_tuning_oper.Daemon.Status.{has_bit, sc_reloading}
use cluster_node_tuning_oper.Daemon.Control.{
  Daemon, Control, System, fails, process, no_command, ctrl_reload, ctrl_restart, ctrl_debug,
  restart_or_reload, clear_bit,
}
use cluster_node_tuning_oper.Daemon.Control.Bits.{Bits}
use cluster_node_tuning_oper.Daemon.Control.Failures.{restart_or_reload-forgets}
use cluster_node_tuning_oper.Daemon.Queue.{
  rounds, event_processor_kube, event_processor_tuned, processed, dropped, max_retries,
}
use cluster_node_tuning_oper.Daemon.Queue.Retries.{rounds-gone, rounds-used_up}
use cluster_node_tuning_oper.Daemon.Retry.{Exit, failure, success, returns, begin, retry_loop}
use cluster_node_tuning_oper.Daemon.Retry.Laws.{retry_loop-waits, retry_loop-gives_up}
use cluster_node_tuning_oper.Daemon.Log.{
  log_lines, reloaded, index, overriden_sysctl, sysctl_key, starts_with, log_line, note_applied,
  applied_line, contains, note_warning, note_error, note_sysctl, note_reloaded,
}
use cluster_node_tuning_oper.Daemon.Log.Reload.{log_lines-reload}
use cluster_node_tuning_oper.Daemon.Log.Sysctl.{
  quotes, overriden_sysctl-panics, overriden_sysctl-change, change_text,
}
use cluster_node_tuning_oper.Daemon.Report.{
  report_bootcmdline, annotation_at, annotation_key, Annotations,
}
use cluster_node_tuning_oper.Daemon.Report.Annotation.{report_bootcmdline-lookup}

abbrev daemon : Daemon
daemon = record {
  restart = 2;
  status = 16;
  stderr = [];
  stopping = false;
  recommended_profile = [];
}

abbrev control : Control
control = record { daemon = daemon; command = process; trace = [] }

abbrev deaf : System
deaf = record { hup = fails; term = fails; kill = fails; exits_in_time = false }

restart_or_reload-forgets_example :
    (deaf.term ≡ fails
      → has_bit control.daemon.restart ctrl_restart ≡ true
      → let (c', ok) = restart_or_reload deaf control in
        (ok ≡ false)
        × (c'.command ≡ no_command)
        × (c'.trace ≡ control.trace)
        × Bits c'.daemon.restart
            (has_bit control.daemon.restart ctrl_reload)
            false
            (has_bit control.daemon.restart ctrl_debug))
    × (deaf.hup ≡ fails
        → has_bit control.daemon.restart ctrl_restart ≡ false
        → has_bit control.daemon.restart ctrl_reload ≡ true
        → let (c', ok) = restart_or_reload deaf control in
          (ok ≡ false)
          × (has_bit c'.daemon.status sc_reloading ≡ true)
          × (c'.trace ≡ control.trace)
          × Bits c'.daemon.restart false false (has_bit control.daemon.restart ctrl_debug))
restart_or_reload-forgets_example = restart_or_reload-forgets deaf control refl

-- Sixteen failed attempts.
abbrev attempts : List Bool
attempts =
    false ∷ false ∷ false ∷ false ∷ false ∷ false ∷ false ∷ false ∷ false ∷ false ∷ false ∷ false
    ∷ false ∷ false ∷ false ∷ false ∷ []

rounds-gone_example :
    let (fate, n) = rounds event_processor_kube attempts 0 in
    ((fate ≡ processed) ⊎ (fate ≡ dropped)) × (n ≤ suc max_retries)
rounds-gone_example = rounds-gone attempts (omega arith)

-- Fifteen rounds while the daemon is reloading.
abbrev waiting : List (Bool × Bool)
waiting =
    (true, false)
    ∷ (true, false)
    ∷ (true, false)
    ∷ (true, false)
    ∷ (true, false)
    ∷ (true, false)
    ∷ (true, false)
    ∷ (true, false)
    ∷ (true, false)
    ∷ (true, false)
    ∷ (true, false)
    ∷ (true, false)
    ∷ (true, false)
    ∷ (true, false)
    ∷ (true, false)
    ∷ []

rounds-used_up_example :
    rounds event_processor_tuned (waiting ++ (false, false) ∷ (false, true) ∷ []) 0
    ≡ (dropped, suc (length waiting))
rounds-used_up_example = rounds-used_up waiting ((false, true) ∷ []) (ground arith) (omega arith)

abbrev exits : List Exit
exits = failure 3 3 false false ∷ failure 9 9 false false ∷ success ∷ []

retry_loop-waits_example : All (λ p. (10 ≤ p) × (p ≤ 160)) (retry_loop exits (begin 0)).1
retry_loop-waits_example = retry_loop-waits exits 0

retry_loop-gives_up_example :
    retry_loop
      (failure 30 30 false false
        ∷ failure 80 80 false false
        ∷ failure 170 170 false false
        ∷ failure 340 340 false false
        ∷ failure 600 600 false false
        ∷ success
        ∷ [])
      (begin 0)
    ≡ (returns false, 20 ∷ 40 ∷ 80 ∷ 160 ∷ [])
retry_loop-gives_up_example =
    retry_loop-gives_up 0 30 80 170 340 600 30 80 170 340 600 false (success ∷ []) (omega arith)

-- The end of a reload that fails.
abbrev failed : Bytes
failed = utf8 " tuned.daemon.controller: Failed to reload TuneD: "

abbrev idle : Daemon
idle = record daemon { status = 0 }

failed-run : log_lines (failed ∷ []) daemon ≡ some (idle, 1)
unfolding log_lines log_line overriden_sysctl index starts_with note_applied applied_line contains
    note_warning note_error note_sysctl note_reloaded reloaded utf8 nat_eq list_eq has_bit clear_bit
failed-run = refl

log_lines-reload_example :
    (◌≡◌ {A = ℕ} 1
      (if has_bit daemon.status sc_reloading && any reloaded (failed ∷ []) then 1 else 0))
    × (has_bit idle.status sc_reloading
        ≡ (has_bit daemon.status sc_reloading && not (any reloaded (failed ∷ []))))
log_lines-reload_example = log_lines-reload (failed ∷ []) daemon idle 1 refl failed-run

-- A line with the key, and the parts of the change behind it.
abbrev line : Bytes
line = utf8 sysctl_key ++ change_text (b'a' ∷ []) (32 ∷ []) (b'1' ∷ []) (32 ∷ []) (b'2' ∷ []) []

line-index : index (utf8 sysctl_key) line ≡ some 0
unfolding index utf8 nat_eq
line-index = refl

overriden_sysctl-panics_example :
    (overriden_sysctl line ≡ none) ↔ (quotes (drop (0 + length (utf8 sysctl_key)) line) < 4)
overriden_sysctl-panics_example = overriden_sysctl-panics line 0 line-index

line-rest :
    drop (0 + length (utf8 sysctl_key)) line
    ≡ change_text (b'a' ∷ []) (32 ∷ []) (b'1' ∷ []) (32 ∷ []) (b'2' ∷ []) []
unfolding utf8
line-rest = refl

abbrev one : Bytes
one = b'1' ∷ []

abbrev two : Bytes
two = b'2' ∷ []

overriden_sysctl-change_example :
    overriden_sysctl line ≡ some (if one == two then [] else b'a' ∷ [])
overriden_sysctl-change_example =
    overriden_sysctl-change line 0 (b'a' ∷ []) (32 ∷ []) (b'1' ∷ []) (32 ∷ []) (b'2' ∷ []) []
      line-index line-rest (ground arith) (ground arith) (ground arith) (ground arith)
      (ground arith)

abbrev annotations : Annotations
annotations = (annotation_key, b'a' ∷ []) ∷ ("other", []) ∷ []

report_bootcmdline-lookup_example :
    ((report_bootcmdline (b'b' ∷ []) annotations ≡ none)
      ↔ (annotation_at annotation_key annotations ≡ b'b' ∷ []))
    × ((sent : Annotations) (k : String)
        → report_bootcmdline (b'b' ∷ []) annotations ≡ some sent
        → lookup k sent ≡ (if k == annotation_key then some (b'b' ∷ []) else lookup k annotations))
report_bootcmdline-lookup_example = report_bootcmdline-lookup (b'b' ∷ []) annotations
