-- ===== src/Conditions.antt =====
-- pkg/clusteroperator/status.go and the same two functions of pkg/tuned/status.go: the conditions of a
-- ClusterOperator and of a Profile. Both kinds have the same fields.
pub mod Laws
pub mod Changes
use cluster_node_tuning_oper.Base.{
  String, ℕ, Bool, true, false, Option, none, some, List, [], ◌∷◌, ◌++◌, ◌&&◌, ◌||◌, ◌==◌,
  string_eq, nat_eq, if◌then◌else◌, any, all, length,
}

-- ClusterOperatorStatusCondition and ProfileStatusCondition.
pub record Condition : Type 0 where
  pub typ : String
  pub status : String
  pub reason : String
  pub message : String
  pub last_transition_time : ℕ  -- in seconds

-- Status, reason and message are those of another condition.
abbrev pub same_content : Condition → Condition → Bool
same_content c x = (c.status == x.status) && ((c.reason == x.reason) && (c.message == x.message))

-- The loop over the old conditions: whether one of the type was found, and the new conditions. It is
-- `none` where the function returns the old conditions from inside the loop.
unfoldable pub set_loop : Condition → List Condition → Option (Bool × List Condition)
set_loop c [] = some (false, [])
set_loop c (x ∷ xs) =
    let rest = set_loop c xs in
    if c.typ == x.typ
    then (if same_content c x
        then none
        else elim rest [ none ↦ none | some (_, new) ↦ some (true, c ∷ new) ])
    else elim rest [ none ↦ none | some (found, new) ↦ some (found, x ∷ new) ]

-- SetStatusCondition at time `now`.
unfoldable pub set_status_condition : ℕ → Condition → List Condition → List Condition
unfolding set_loop
set_status_condition now condition old =
    let c = record condition { last_transition_time = now } in
    elim (set_loop c old) [
      | none ↦ old
      | some (true, new) ↦ new
      | some (false, new) ↦ new ++ (c ∷ [])
    ]

-- Every field but the time is the same.
abbrev pub same_condition : Condition → Condition → Bool
same_condition a b = (a.typ == b.typ) && same_content a b

-- ConditionsEqual
unfoldable pub conditions_equal : List Condition → List Condition → Bool
conditions_equal old new =
    if length new == length old then all (λ a. any (same_condition a) new) old else false
