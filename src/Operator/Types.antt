-- ===== src/Operator/Types.antt =====
-- pkg/apis/tuned/v1/tuned_types.go: the custom resources, with the fields that the operator reads.
-- A pointer is an option, and a slice or map that the code compares with nil is one too.
use cluster_node_tuning_oper.Base.{ℕ, String, Bool, Option, none, some, List}
use cluster_node_tuning_oper.Util.StringsMap.{Labels}

mutual
  -- `label`, `value`, `type` and `match` of a rule.
  pub data TunedMatch : Type 0 where
    tuned_match : Option String → Option String → Option String → Matches → TunedMatch

  -- A slice of rules. No rule of a rule's own `match` slice is told from a nil slice.
  pub data Matches : Type 0 where
    nil : Matches
    cons : TunedMatch → Matches → Matches

pub record OperandConfig : Type 0 where
  pub debug : Bool
  pub reapply_sysctl : Option Bool

pub record TunedRecommend : Type 0 where
  pub profile : Option String
  pub priority : Option ℕ  -- uint64
  pub rules : Option Matches  -- Match
  pub machine_config_labels : Option Labels
  pub operand : OperandConfig

pub record TunedProfile : Type 0 where
  pub name : Option String
  pub contents : Option String  -- Data

pub record Tuned : Type 0 where
  pub name : String
  pub profile : Option (List TunedProfile)
  pub recommend : Option (List TunedRecommend)

-- The zero value of an OperandConfig.
abbrev pub no_operand : OperandConfig
no_operand = record { debug = Bool.false; reapply_sysctl = none }

-- The slice behind a possibly nil slice.
abbrev pub slice_of : Option Matches → Matches
slice_of none = nil
slice_of (some ms) = ms

-- The errors of the client-go listers, and those that the operator makes itself.
pub data Err : Type 0 where
  not_found : Err
  api_error : Err
  not_scheduled : Err
  list_tuned : Err → Err
  get_default_tuned : Err → Err
  no_catch_all : Err

pub data Result {ℓ} (A : Type ℓ) : Type ℓ where
  ok : A → Result A
  err : Err → Result A
