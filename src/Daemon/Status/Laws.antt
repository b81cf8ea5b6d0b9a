-- ===== src/Daemon/Status/Laws.antt =====
-- pkg/tuned/status.go and pkg/operator/status.go: what the operator reads in a Profile is what the
-- daemon's bits say.
use cluster_node_tuning_oper.Base.{
  String, ℕ, Bool, true, false, not, Option, none, some, List, [], ◌∷◌, ◌==◌, nat_eq, if◌then◌else◌,
  ◌≡◌, refl, ◌∙◌, ◌&&◌, ◌||◌, arith, string_eq, inl, inr, Bool-cases,
}
use cluster_node_tuning_oper.Conditions.{Condition, set_status_condition}
use cluster_node_tuning_oper.Conditions.Laws.{
  OnePerType, find_condition, set_status_condition-find, set_status_condition-OnePerType, stamped,
}
use cluster_node_tuning_oper.Operator.Status.Profiles.{
  has_true, true_, profile_applied, profile_degraded, Profile,
}
use cluster_node_tuning_oper.Daemon.Status.{
  has_bit, sc_applied, sc_warn, sc_error, sc_sysctl_override, sc_unknown, applied_condition,
  degraded_condition, compute_status_conditions, set_profile_condition,
  initialize_status_conditions,
}

abbrev is_true : Option Condition → Bool
is_true o = elim o [ none ↦ false | some c ↦ c.status == true_ ]

has_true-absent :
    (t : String) (cs : List Condition) → find_condition t cs ≡ none → has_true t cs ≡ false
unfolding has_true find_condition
has_true-absent t [] h = refl
has_true-absent t (c ∷ cs) h = ground (arith, has_true-absent t cs)

-- With one condition of each type, the loop looks at the one that is found.
has_true-find :
    (t : String) (cs : List Condition)
    → OnePerType cs
    → has_true t cs ≡ is_true (find_condition t cs)
unfolding has_true find_condition
has_true-find t [] w = refl
has_true-find t (c ∷ cs) (a, w) = ground (arith, has_true-find t cs w, has_true-absent t cs)

is_true-stamped :
    (c : Condition) (now : ℕ) (o : Option Condition)
    → is_true (some (stamped (record c { last_transition_time = now }) o)) ≡ (c.status == true_)
is_true-stamped c now none = refl
is_true-stamped c now (some o) = ground arith

has_true-set :
    (t : String) (now : ℕ) (c : Condition) (old : List Condition)
    → OnePerType old
    → has_true t (set_status_condition now c old)
      ≡ (if t == c.typ then c.status == true_ else has_true t old)
has_true-set t now c old w =
    has_true-find t (set_status_condition now c old) (set_status_condition-OnePerType now c old w)
    ∙ ground (
      arith,
      set_status_condition-find now c old t w,
      is_true-stamped c now (find_condition t old),
      has_true-find t old w,
    )

applied_condition-status :
    (status : ℕ)
    → ((applied_condition status).typ ≡ "Applied")
      × (((applied_condition status).status == true_) ≡ has_bit status sc_applied)
unfolding applied_condition string_eq
applied_condition-status status = elim (Bool-cases (has_bit status sc_applied)) [
  | inl e ↦ rw e (refl, refl)
  | inr e ↦ rw e (refl, refl)
]

degraded_condition-status :
    (status : ℕ) (stderr : String)
    → ((degraded_condition status stderr).typ ≡ "Degraded")
      × (((degraded_condition status stderr).status == true_)
          ≡ (has_bit status sc_error || has_bit status sc_sysctl_override))
unfolding degraded_condition string_eq
degraded_condition-status status stderr =
    go (has_bit status sc_error) (has_bit status sc_sysctl_override) refl refl
  where
    go :
        (x y : Bool)
        → has_bit status sc_error ≡ x
        → has_bit status sc_sysctl_override ≡ y
        → ((degraded_condition status stderr).typ ≡ "Degraded")
          × (((degraded_condition status stderr).status == true_)
              ≡ (has_bit status sc_error || has_bit status sc_sysctl_override))
    go true y e f = rw e (refl, refl)
    go false true e f = rw (e, f) (refl, refl)
    go false false e f = elim (Bool-cases (has_bit status sc_warn)) [
      | inl g ↦ rw (e, f, g) (refl, refl)
      | inr g ↦ rw (e, f, g) (refl, refl)
    ]

abbrev same_name : String → String → Bool
same_name a b = a == b

names_differ : (same_name "Degraded" "Applied" ≡ false) × (same_name "Applied" "Degraded" ≡ false)
unfolding string_eq
names_differ = (refl, refl)

has_true-unknown :
    (now : ℕ)
    → (has_true "Degraded" (initialize_status_conditions now) ≡ false)
      × (has_true "Applied" (initialize_status_conditions now) ≡ false)
unfolding has_true initialize_status_conditions string_eq
has_true-unknown now = (refl, refl)

has_true-computed :
    (at_applied at_degraded status : ℕ) (stderr : String) (old : List Condition)
    → OnePerType old
    → let new = compute_status_conditions at_applied at_degraded status stderr old in
      let known = not (has_bit status sc_unknown) in
      (has_true "Degraded" new
        ≡ (known && (has_bit status sc_error || has_bit status sc_sysctl_override)))
      × (has_true "Applied" new ≡ (known && has_bit status sc_applied))
unfolding compute_status_conditions set_profile_condition
has_true-computed at_applied at_degraded status stderr old w =
    elim (Bool-cases (has_bit status sc_unknown)) [
      | inl e ↦ rw e (has_true-unknown at_applied)
      | inr e ↦
          let a = applied_condition status in
          let one = set_status_condition at_applied a old in
          let w1 = set_status_condition-OnePerType at_applied a old w in
          let d = degraded_condition status stderr in
          let (at, as_) = applied_condition-status status in
          let (dt, ds) = degraded_condition-status status stderr in
          rw e (
            has_true-set "Degraded" at_degraded d one w1 ∙ ground (arith, dt, ds),
            has_true-set "Applied" at_degraded d one w1
                ∙ ground
                    (arith, dt, names_differ, has_true-set "Applied" at_applied a old w, at, as_),
          )
    ]

-- Where no type has two conditions, what the operator reads in a Profile whose conditions the
-- daemon's bits were written to is what
-- the bits say: it is degraded exactly when the daemon met an error or an overridden sysctl, and it
-- is applied exactly when the daemon applied the profile that the operator asks for; if the bits are
-- unknown, it is neither.
pub compute_status_conditions-read :
    (at_applied at_degraded status : ℕ) (stderr : String) (p : Profile)
    → OnePerType p.conditions
    → let q = record p {
      conditions = compute_status_conditions at_applied at_degraded status stderr p.conditions;
    } in
      let known = not (has_bit status sc_unknown) in
      (profile_degraded (some q)
        ≡ (known && (has_bit status sc_error || has_bit status sc_sysctl_override)))
      × (profile_applied (some q)
          ≡ (known && ((p.spec_profile == p.status_profile) && has_bit status sc_applied)))
unfolding profile_degraded profile_applied
compute_status_conditions-read at_applied at_degraded status stderr p w =
    let (d, a) = has_true-computed at_applied at_degraded status stderr p.conditions w in
    (d, ground (arith, a))
