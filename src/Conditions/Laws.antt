-- ===== src/Conditions/Laws.antt =====
-- pkg/clusteroperator/status.go: setting a condition is an update of a map from types to conditions,
-- and ConditionsEqual tells whether it changed anything.
use cluster_node_tuning_oper.Base.{
  String, ℕ, Bool, true, false, Option, none, some, List, [], ◌∷◌, ◌++◌, ◌==◌, string_eq, nat_eq,
  if◌then◌else◌, ◌≡◌, refl, arith, inl, inr, Option-cases, Bool-cases, subst,
}
use cluster_node_tuning_oper.Conditions.{Condition, same_content, set_loop, set_status_condition}

-- The first condition of a type, which is what a reader of the conditions finds.
unfoldable pub find_condition : String → List Condition → Option Condition
find_condition t [] = none
find_condition t (x ∷ xs) = let rest = find_condition t xs in if t == x.typ then some x else rest

-- No type has two conditions.
abbrev pub OnePerType : List Condition → Type 0
OnePerType [] = Unit
OnePerType (x ∷ xs) = (find_condition (x.typ) xs ≡ none) × OnePerType xs

-- What stands under the type of `c` once it is set: the old condition if it has the content of `c`.
abbrev pub stamped : Condition → Option Condition → Condition
stamped c none = c
stamped c (some o) = if same_content c o then o else c

find-append :
    (t : String) (xs : List Condition) (c : Condition)
    → find_condition t (xs ++ (c ∷ []))
      ≡ elim (find_condition t xs) [ some o ↦ some o | none ↦ if t == c.typ then some c else none ]
unfolding find_condition
find-append t [] c = refl
find-append t (x ∷ xs) c = ground (arith, find-append t xs c)

-- The first condition of the type has the content already.
abbrev pub has_content : Condition → List Condition → Bool
has_content c old = elim (find_condition (c.typ) old) [ none ↦ false | some o ↦ same_content c o ]

abbrev pub has_type : String → List Condition → Bool
has_type t old = elim (find_condition t old) [ none ↦ false | some _ ↦ true ]

set_loop-none :
    (c : Condition) (old : List Condition)
    → OnePerType old
    → set_loop c old ≡ none
    → has_content c old ≡ true
unfolding set_loop find_condition
set_loop-none c [] w h = cc
set_loop-none c (x ∷ xs) (n, w) h = ground (arith, set_loop-none c xs w)

pub set_loop-content :
    (c : Condition) (old : List Condition) (r : Bool × List Condition)
    → set_loop c old ≡ some r
    → has_content c old ≡ false
unfolding set_loop find_condition
set_loop-content c [] r h = refl
set_loop-content c (x ∷ xs) r h = elim (Option-cases (set_loop c xs)) [
  | inl e ↦ ground (arith, e)
  | inr ((f, new), e) ↦ ground (arith, e, set_loop-content c xs (f, new) e)
]

pub set_loop-found :
    (c : Condition) (old : List Condition) (found : Bool) (new : List Condition)
    → set_loop c old ≡ some (found, new)
    → found ≡ has_type (c.typ) old
unfolding set_loop find_condition
set_loop-found c [] found new h = ground arith
set_loop-found c (x ∷ xs) found new h = elim (Option-cases (set_loop c xs)) [
  | inl e ↦ ground (arith, e)
  | inr ((f, n), e) ↦ ground (arith, e, set_loop-found c xs f n e)
]

pub set_loop-find :
    (c : Condition) (t : String) (old : List Condition) (found : Bool) (new : List Condition)
    → set_loop c old ≡ some (found, new)
    → find_condition t new
      ≡ (if t == c.typ then (if found then some c else none) else find_condition t old)
unfolding set_loop find_condition
set_loop-find c t [] found new h = ground arith
set_loop-find c t (x ∷ xs) found new h = elim (Option-cases (set_loop c xs)) [
  | inl e ↦ ground (arith, e)
  | inr ((f, n), e) ↦ ground (arith, e, set_loop-find c t xs f n e)
]

-- Setting a condition at time `now` puts it under its type, with that time, unless the condition of
-- that type has the same content already, which then stays as it is; the conditions of the other
-- types stay. No type may have two conditions beforehand.
pub set_status_condition-find :
    (now : ℕ) (c : Condition) (old : List Condition) (t : String)
    → OnePerType old
    → find_condition t (set_status_condition now c old) ≡ (
        if t == c.typ
        then some (stamped (record c { last_transition_time = now }) (find_condition t old))
        else find_condition t old)
unfolding set_status_condition
set_status_condition-find now c old t w = go (set_loop d old) refl
  where
    d : Condition
    d = record c { last_transition_time = now }

    go :
        (x : Option (Bool × List Condition))
        → set_loop d old ≡ x
        → find_condition t (set_status_condition now c old)
          ≡ (if t == c.typ then some (stamped d (find_condition t old)) else find_condition t old)
    go none e = ground (arith, e, set_loop-none d old w e)
    go (some (true, new)) e = ground (
      arith,
      e,
      set_loop-find d t old true new e,
      set_loop-found d old true new e,
      set_loop-content d old (true, new) e,
    )
    go (some (false, new)) e = ground (
      arith,
      e,
      set_loop-find d t old false new e,
      set_loop-found d old false new e,
      find-append t new d,
    )

append-OnePerType :
    (xs : List Condition) (c : Condition)
    → OnePerType xs
    → find_condition (c.typ) xs ≡ none
    → OnePerType (xs ++ (c ∷ []))
unfolding find_condition
append-OnePerType [] c w h = (refl, tt)
append-OnePerType (x ∷ xs) c (n, w) h =
    (ground (arith, find-append (x.typ) xs c), append-OnePerType xs c w (ground arith))

set_loop-OnePerType :
    (c : Condition) (old : List Condition) (found : Bool) (new : List Condition)
    → OnePerType old
    → set_loop c old ≡ some (found, new)
    → OnePerType new
unfolding set_loop find_condition
set_loop-OnePerType c [] found new w h =
    let same : [] ≡ new = ground (arith, h) in subst OnePerType same tt
set_loop-OnePerType c (x ∷ xs) found new (n, w) h = elim (Option-cases (set_loop c xs)) [
  | inl e ↦ absurd (ground (arith, e))
  | inr ((f, m), e) ↦ elim (Bool-cases (c.typ == x.typ)) [
    | inl q ↦
        let same : (c ∷ m) ≡ new = ground (arith, e, q) in
        let made : OnePerType (c ∷ m) = (
          ground (arith, q, set_loop-find c (c.typ) xs f m e, set_loop-found c xs f m e),
          set_loop-OnePerType c xs f m w e,
        ) in
        subst OnePerType same made
    | inr q ↦
        let same : (x ∷ m) ≡ new = ground (arith, e, q) in
        let made : OnePerType (x ∷ m) =
          (ground (arith, q, set_loop-find c (x.typ) xs f m e), set_loop-OnePerType c xs f m w e) in
        subst OnePerType same made
  ]
]

-- No type has two conditions afterwards if none has two beforehand.
pub set_status_condition-OnePerType :
    (now : ℕ) (c : Condition) (old : List Condition)
    → OnePerType old
    → OnePerType (set_status_condition now c old)
unfolding set_status_condition
set_status_condition-OnePerType now c old w = go (set_loop d old) refl
  where
    d : Condition
    d = record c { last_transition_time = now }

    go :
        (x : Option (Bool × List Condition))
        → set_loop d old ≡ x
        → OnePerType (set_status_condition now c old)
    go none e = rw (e, set_status_condition) w
    go (some (true, new)) e = rw (e, set_status_condition) (set_loop-OnePerType d old true new w e)
    go (some (false, new)) e =
        rw (e, set_status_condition)
          (append-OnePerType new d (set_loop-OnePerType d old false new w e)
            (ground (arith, set_loop-find d (d.typ) old false new e)))
