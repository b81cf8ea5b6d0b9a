-- ===== src/Daemon/Log.antt =====
-- pkg/tuned/run.go: what TunedRun makes of the lines of the TuneD daemon's log, with overridenSysctl of
-- pkg/tuned/controller.go. Where Go indexes past a slice's end, the model returns none.
pub mod Sysctl
pub mod Reload
use cluster_node_tuning_oper.Base.{
  ℕ, zero, suc, nat_eq, list_eq, ◌==◌, ◌&&◌, ◌||◌, not, Bool, true, false, List, [], ◌∷◌, Option,
  none, some, utf8, drop, length, ◌+◌, get_elem?, if◌then◌else◌, string_eq, String,
}
use cluster_node_tuning_oper.Daemon.Builtin.{Bytes}
use cluster_node_tuning_oper.Daemon.Includes.{split}
use cluster_node_tuning_oper.Daemon.Status.{
  has_bit, sc_applied, sc_warn, sc_error, sc_sysctl_override, sc_reloading,
}
use cluster_node_tuning_oper.Daemon.Control.{Daemon, set_bit, clear_bit}

unfoldable pub starts_with : Bytes → Bytes → Bool
starts_with [] s = true
starts_with (c ∷ p) [] = false
starts_with (c ∷ p) (d ∷ s) = c == d && starts_with p s

-- strings.Index
unfoldable pub index : Bytes → Bytes → Option ℕ
unfolding starts_with
index p [] = if p == [] then some 0 else none
index p (c ∷ s) =
    let rest = index p s in
    if starts_with p (c ∷ s) then some 0 else elim rest [ none ↦ none | some i ↦ some (suc i) ]

-- strings.Contains
unfoldable pub contains : Bytes → Bytes → Bool
contains p s = elim (index p s) [ none ↦ false | some _ ↦ true ]

abbrev pub sysctl_key : String
sysctl_key = "tuned.plugins.plugin_sysctl: Overriding sysctl parameter '"

abbrev pub quote : ℕ
quote = b'\''

-- The body of overridenSysctl behind the key.
unfoldable pub sysctl_of : List Bytes → Option Bytes
sysctl_of slice = elim (get_elem? slice 2) [
  | none ↦ none
  | some old ↦ elim (get_elem? slice 4) [
    | none ↦ none
    | some new ↦ if old == new then some [] else get_elem? slice 0
  ]
]

unfoldable pub overriden_sysctl : Bytes → Option Bytes
overriden_sysctl line = elim (index (utf8 sysctl_key) line) [
  | none ↦ some []
  | some i ↦ sysctl_of (split quote (drop (i + length (utf8 sysctl_key)) line))
]

-- profileApplied
unfoldable pub applied_line : Bytes → Bool
applied_line l =
    contains (utf8 " tuned.daemon.daemon: static tuning from profile ") l
    && contains (utf8 " applied") l

-- profileApplied || reloadFailed || profileDoesNotExist
unfoldable pub reloaded : Bytes → Bool
reloaded l =
    applied_line l
    || contains (utf8 " tuned.daemon.controller: Failed to reload TuneD: ") l
    || (contains
          (utf8
            " tuned.daemon.daemon: Cannot set initial profile. No tunings will be enabled: Requested profile ")
          l
        && contains (utf8 " doesn't exist.") l)

unfoldable pub note_applied : Bytes → Daemon → Daemon
note_applied l d = if applied_line l then record d { status = set_bit d.status sc_applied } else d

unfoldable pub note_warning : Bytes → Daemon → Daemon
note_warning l d = elim (index (utf8 " WARNING ") l) [
  | none ↦ d
  | some i ↦
      let status = set_bit d.status sc_warn in
      record d { status = status; stderr = if has_bit status sc_error then d.stderr else drop i l }
]

unfoldable pub note_error : Bytes → Daemon → Daemon
note_error l d = elim (index (utf8 " ERROR ") l) [
  | none ↦ d
  | some i ↦ record d { status = set_bit d.status sc_error; stderr = drop i l }
]

unfoldable pub note_sysctl : Bytes → Daemon → Daemon
note_sysctl sysctl d =
    if sysctl == []
    then d
    else record d { status = set_bit d.status sc_sysctl_override; stderr = sysctl }

-- The end of a reload, and whether onDaemonReload is called.
unfoldable pub note_reloaded : Bytes → Daemon → Daemon × Bool
note_reloaded l d =
    if has_bit d.status sc_reloading && reloaded l
    then (record d { status = clear_bit d.status sc_reloading }, true)
    else (d, false)

-- One line of the log.
unfoldable pub log_line : Bytes → Daemon → Option (Daemon × Bool)
log_line l d = if d.stopping then some (d, false) else elim (overriden_sysctl l) [
  | none ↦ none
  | some sysctl ↦
      some (note_reloaded l (note_sysctl sysctl (note_error l (note_warning l (note_applied l d)))))
]

-- The lines of the log, and how often onDaemonReload is called.
unfoldable pub log_lines : List Bytes → Daemon → Option (Daemon × ℕ)
log_lines [] d = some (d, 0)
log_lines (l ∷ ls) d = elim (log_line l d) [
  | none ↦ none
  | some (d', called) ↦ elim (log_lines ls d') [
    | none ↦ none
    | some (d'', n) ↦ some (d'', (if called then 1 else 0) + n)
  ]
]
