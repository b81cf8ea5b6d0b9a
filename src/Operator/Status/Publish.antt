-- ===== src/Operator/Status/Publish.antt =====
-- pkg/operator/status.go: the status of each condition that computeStatus sets.
use cluster_node_tuning_oper.Base.{
  String, ℕ, Option, none, some, List, ◌==◌, string_eq, if◌then◌else◌, ◌≡◌, arith,
}
use cluster_node_tuning_oper.Conditions.{Condition, set_status_condition}
use cluster_node_tuning_oper.Conditions.Laws.{
  OnePerType, find_condition, stamped, set_status_condition-find, set_status_condition-OnePerType,
}
use cluster_node_tuning_oper.Operator.Status.Drafts.{Drafts}
use cluster_node_tuning_oper.Operator.Status.Sync.{Clock, publish}

abbrev pub shown : Condition → Option (String × String)
shown c = some (c.status, c.reason)

-- The status and the reason that a reader finds under a type.
abbrev pub status_at : String → List Condition → Option (String × String)
status_at t conditions = elim (find_condition t conditions) [ none ↦ none | some c ↦ shown c ]

pub status_at-set :
    (now : ℕ) (c : Condition) (old : List Condition) (t : String)
    → OnePerType old
    → status_at t (set_status_condition now c old)
      ≡ (if t == c.typ then shown c else status_at t old)
status_at-set now c old t w =
    rw (set_status_condition-find now c old t w, status_at) (go (find_condition t old))
  where
    go :
        (o : Option Condition)
        → elim (if t == c.typ
            then some (stamped (record c { last_transition_time = now }) o)
            else o) [ none ↦ none | some x ↦ shown x ]
          ≡ (if t == c.typ then shown c else elim o [ none ↦ none | some x ↦ shown x ])
    go none = ground arith
    go (some o) = ground arith

-- The types of the three drafts.
abbrev pub IsTyped : Drafts → Type 0
IsTyped d =
    (d.available.typ ≡ "Available")
    × ((d.progressing.typ ≡ "Progressing") × (d.degraded.typ ≡ "Degraded"))

pub publish-status :
    (clock : Clock) (d : Drafts) (old : List Condition)
    → IsTyped d
    → OnePerType old
    → (status_at "Available" (publish clock d old) ≡ some (d.available.status, d.available.reason))
      × ((status_at "Progressing" (publish clock d old)
            ≡ some (d.progressing.status, d.progressing.reason))
          × (status_at "Degraded" (publish clock d old)
              ≡ some (d.degraded.status, d.degraded.reason)))
unfolding publish string_eq
publish-status clock d old (a, (p, g)) w =
    let one = set_status_condition clock.at_available d.available old in
    let w1 = set_status_condition-OnePerType clock.at_available d.available old w in
    let two = set_status_condition clock.at_progressing d.progressing one in
    let w2 = set_status_condition-OnePerType clock.at_progressing d.progressing one w1 in
    (
      rw (
        status_at-set clock.at_degraded d.degraded two "Available" w2,
        g,
        status_at-set clock.at_progressing d.progressing one "Available" w1,
        p,
        status_at-set clock.at_available d.available old "Available" w,
        a,
      ),
      (
        rw (
          status_at-set clock.at_degraded d.degraded two "Progressing" w2,
          g,
          status_at-set clock.at_progressing d.progressing one "Progressing" w1,
          p,
        ),
        rw (status_at-set clock.at_degraded d.degraded two "Degraded" w2, g),
      ),
    )
