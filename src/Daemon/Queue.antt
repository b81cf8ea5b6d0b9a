-- ===== src/Daemon/Queue.antt =====
-- pkg/tuned/controller.go: the event processors and their rate limited work queues. Of a queue the
-- model has one item, with how often it was queued again (NumRequeues), which AddRateLimited counts up
-- and Forget sets to 0.
pub mod Retries
use cluster_node_tuning_oper.Base.{
  ℕ, zero, suc, ltb, Bool, true, false, String, ◌==◌, string_eq, Option, some, none, List, [], ◌∷◌,
  if◌then◌else◌,
}
use cluster_node_tuning_oper.Daemon.Builtin.{Bytes}
use cluster_node_tuning_oper.Daemon.Syncer.{Change}

abbrev pub max_retries : ℕ
max_retries = 15

-- What becomes of an item: it is queued again, with its new count, or it is forgotten after its success
-- or after the last retry.
pub data Fate : Type 0 where
  requeued : ℕ → Fate
  processed dropped : Fate

-- The part that both event processors share, behind the attempt to process the item.
unfoldable pub settle : Bool → ℕ → Fate
settle true requeues = processed
settle false requeues = if ltb requeues max_retries then requeued (suc requeues) else dropped

-- One round of eventProcessorKube, where `synced` is what sync says of the key.
unfoldable pub event_processor_kube : Bool → ℕ → Fate
event_processor_kube synced requeues = settle synced requeues

-- One round of eventProcessorTuneD, where `ok` is what the main thread says of the change.
unfoldable pub event_processor_tuned : Bool × Bool → ℕ → Fate
event_processor_tuned (reloading, ok) requeues =
    if reloading then requeued (suc requeues) else settle ok requeues

-- The Profile of a node, with the fields that sync reads.
pub record ProfileConfig : Type 0 where
  pub provider_name : Bytes
  pub tuned_profile : Bytes
  pub debug : Bool
  pub reapply_sysctl : Option Bool

-- The change that sync adds to the other queue for a Profile.
unfoldable pub change_of : ProfileConfig → Change
change_of profile = record {
  profile = true;
  profile_status = false;
  debug = profile.debug;
  provider = profile.provider_name;
  reapply_sysctl = elim profile.reapply_sysctl [ none ↦ true | some b ↦ b ];
  recommended_profile = profile.tuned_profile;
}

-- sync, with the changes added and whether there is an error; the lister answers none for an error.
unfoldable pub sync_kube :
    String → (String → Option ProfileConfig) → String → String → List Change × Bool
sync_kube node_name get kind name =
    if kind == "profile"
    then (if name == node_name
        then elim (get node_name) [
          | none ↦ ([], true)
          | some profile ↦ (change_of profile ∷ [], false)
        ]
        else ([], false))
    else ([], false)

-- The rounds of an item on a queue, one for each answer of the list, and how many are made.
unfoldable pub rounds {ℓ} : {A : Type ℓ} → (A → ℕ → Fate) → List A → ℕ → Fate × ℕ
rounds f [] requeues = (requeued requeues, 0)
rounds f (a ∷ answers) requeues = elim (f a requeues) [
  | processed ↦ (processed, 1)
  | dropped ↦ (dropped, 1)
  | requeued r ↦ let (fate, n) = rounds f answers r in (fate, suc n)
]
