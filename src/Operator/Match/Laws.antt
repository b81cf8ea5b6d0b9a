-- ===== src/Operator/Match/Laws.antt =====
-- pkg/operator/profilecalculator.go: profileMatches decides whether a node fulfils a tree of rules.
use cluster_node_tuning_oper.Base.{
  ap₂, ◌&&◌, ◌||◌, or_true, or_right, and_true, String, true, Option, string_eq, option_eq, ◌≡◌,
  ◌↔◌, ◌⊎◌, inl, inr, refl, ◌&&◌, ◌||◌,
}
use cluster_node_tuning_oper.Operator.Types.{TunedMatch, tuned_match, Matches, nil, cons}
use cluster_node_tuning_oper.Operator.State.{TunedState}
use cluster_node_tuning_oper.Operator.Match.{
  label_matches, profile_matches, rule_matches, any_rule_matches,
}

-- What the API documentation says of the rules: a slice of rules is fulfilled if it is empty or one
-- of its rules holds; a rule holds if its label matches and its own rules are fulfilled.
mutual
  pub data Fulfils (s : TunedState) (node : String) : Matches → Type 0 where
    catch_all : Fulfils s node nil
    some_rule :
        {m : TunedMatch} {ms : Matches} → AnyHolds s node (cons m ms) → Fulfils s node (cons m ms)

  pub data AnyHolds (s : TunedState) (node : String) : Matches → Type 0 where
    here : {m : TunedMatch} {ms : Matches} → Holds s node m → AnyHolds s node (cons m ms)
    there : {m : TunedMatch} {ms : Matches} → AnyHolds s node ms → AnyHolds s node (cons m ms)

  pub data Holds (s : TunedState) (node : String) : TunedMatch → Type 0 where
    holds :
        {label value type : Option String} {sub : Matches}
        → label_matches s node label value type ≡ true
        → Fulfils s node sub
        → Holds s node (tuned_match label value type sub)

pick :
    (s : TunedState) (node : String) (m : TunedMatch) (ms : Matches)
    → (rule_matches s node m ≡ true → Holds s node m)
    → (any_rule_matches s node ms ≡ true → AnyHolds s node ms)
    → (rule_matches s node m ≡ true) ⊎ (any_rule_matches s node ms ≡ true)
    → AnyHolds s node (cons m ms)
pick s node m ms f g (inl h) = here (f h)
pick s node m ms f g (inr h) = there (g h)

both :
    (s : TunedState) (node : String) (label value type : Option String) (sub : Matches)
    → (profile_matches s node sub ≡ true → Fulfils s node sub)
    → (label_matches s node label value type ≡ true) × (profile_matches s node sub ≡ true)
    → Holds s node (tuned_match label value type sub)
both s node label value type sub f (l, h) = holds l (f h)

mutual
  unfolding profile_matches

  profile_matches_sound :
      (s : TunedState) (node : String) (ms : Matches)
      → profile_matches s node ms ≡ true
      → Fulfils s node ms
  profile_matches_sound s node nil h = catch_all
  profile_matches_sound s node (cons m ms) h = some_rule (
      pick s node m ms (rule_matches_sound s node m) (any_rule_matches_sound s node ms)
        (or_true (rule_matches s node m) (any_rule_matches s node ms) h))

  any_rule_matches_sound :
      (s : TunedState) (node : String) (ms : Matches)
      → any_rule_matches s node ms ≡ true
      → AnyHolds s node ms
  any_rule_matches_sound s node nil h = cc
  any_rule_matches_sound s node (cons m ms) h =
      pick s node m ms (rule_matches_sound s node m) (any_rule_matches_sound s node ms)
        (or_true (rule_matches s node m) (any_rule_matches s node ms) h)

  rule_matches_sound :
      (s : TunedState) (node : String) (m : TunedMatch)
      → rule_matches s node m ≡ true
      → Holds s node m
  rule_matches_sound s node (tuned_match label value type sub) h =
      both s node label value type sub (profile_matches_sound s node sub)
        (and_true (label_matches s node label value type) (profile_matches s node sub) h)

mutual
  unfolding profile_matches any_rule_matches rule_matches

  profile_matches_complete :
      (s : TunedState) (node : String) (ms : Matches)
      → Fulfils s node ms
      → profile_matches s node ms ≡ true
  profile_matches_complete s node ms catch_all = refl
  profile_matches_complete s node ms (some_rule h) = any_rule_matches_complete s node _ h

  any_rule_matches_complete :
      (s : TunedState) (node : String) (ms : Matches)
      → AnyHolds s node ms
      → any_rule_matches s node ms ≡ true
  any_rule_matches_complete s node ms (here h) = rw (rule_matches_complete s node _ h)
  any_rule_matches_complete s node ms (there {m} h) =
      rw (any_rule_matches_complete s node _ h) (or_right (rule_matches s node m))

  rule_matches_complete :
      (s : TunedState) (node : String) (m : TunedMatch)
      → Holds s node m
      → rule_matches s node m ≡ true
  rule_matches_complete s node m (holds l h) = rw (l, profile_matches_complete s node _ h)

-- profileMatches returns true exactly if the node fulfils the tree of rules: an empty tree is
-- fulfilled, and any other one if a rule's label matches and the tree below that rule is fulfilled.
pub profile_matches_iff :
    (s : TunedState) (node : String) (ms : Matches)
    → (profile_matches s node ms ≡ true) ↔ Fulfils s node ms
profile_matches_iff s node ms =
    (profile_matches_sound s node ms, profile_matches_complete s node ms)

-- Two states in which every label of a rule matches a node alike.
abbrev pub SameLabels : TunedState → TunedState → String → Type 0
SameLabels s t node =
    (label value type : Option String)
    → label_matches s node label value type ≡ label_matches t node label value type

mutual
  unfolding profile_matches any_rule_matches rule_matches

  profile_matches-same :
      (s t : TunedState) (node : String) (ms : Matches)
      → SameLabels s t node
      → profile_matches s node ms ≡ profile_matches t node ms
  profile_matches-same s t node nil h = refl
  profile_matches-same s t node (cons m ms) h =
      ap₂ ◌||◌ (rule_matches-same s t node m h) (any_rule_matches-same s t node ms h)

  any_rule_matches-same :
      (s t : TunedState) (node : String) (ms : Matches)
      → SameLabels s t node
      → any_rule_matches s node ms ≡ any_rule_matches t node ms
  any_rule_matches-same s t node nil h = refl
  any_rule_matches-same s t node (cons m ms) h =
      ap₂ ◌||◌ (rule_matches-same s t node m h) (any_rule_matches-same s t node ms h)

  rule_matches-same :
      (s t : TunedState) (node : String) (m : TunedMatch)
      → SameLabels s t node
      → rule_matches s node m ≡ rule_matches t node m
  rule_matches-same s t node (tuned_match label value type sub) h =
      ap₂ ◌&&◌ (h label value type) (profile_matches-same s t node sub h)

-- The matching looks at the state through the labels alone.
pub profile_matches-SameLabels :
    (s t : TunedState) (node : String) (ms : Matches)
    → SameLabels s t node
    → profile_matches s node ms ≡ profile_matches t node ms
profile_matches-SameLabels s t node ms h = profile_matches-same s t node ms h
