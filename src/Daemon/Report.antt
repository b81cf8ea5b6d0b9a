-- ===== src/Daemon/Report.antt =====
-- pkg/tuned/controller.go: what the operand reports of a node: the kernel command line in an annotation
-- of the Node, the active profile and the conditions in the status of the Profile. A file is the list of
-- its lines, none where it cannot be opened. `text` decodes the bytes of a message.
pub mod Bootcmdline
pub mod Annotation
use cluster_node_tuning_oper.Base.{
  ℕ, nat_eq, list_eq, string_eq, ◌==◌, ◌&&◌, ◌||◌, not, Bool, true, false, List, [], ◌∷◌, Option,
  none, some, String, utf8, drop, length, if◌then◌else◌,
}
use cluster_node_tuning_oper.Base.Dict.{Dict, lookup, insert}
use cluster_node_tuning_oper.Util.Kernel.{is_space}
use cluster_node_tuning_oper.Conditions.{Condition, conditions_equal}
use cluster_node_tuning_oper.Daemon.Builtin.{Bytes}
use cluster_node_tuning_oper.Daemon.Control.{Daemon}
use cluster_node_tuning_oper.Daemon.Log.{starts_with, quote}
use cluster_node_tuning_oper.Daemon.Status.{compute_status_conditions}

-- strings.TrimSpace, for the white space of ASCII.
unfoldable pub trim_left : Bytes → Bytes
trim_left [] = []
trim_left (c ∷ s) = let rest = trim_left s in if is_space c then rest else c ∷ s

unfoldable pub trim_right : Bytes → Bytes
trim_right [] = []
trim_right (c ∷ s) = elim (trim_right s) [
  | [] ↦ if is_space c then [] else c ∷ []
  | d ∷ t ↦ c ∷ d ∷ t
]

unfoldable pub trim_space : Bytes → Bytes
unfolding trim_left trim_right
trim_space s = trim_right (trim_left s)

-- getActiveProfile: the last line.
unfoldable pub active_profile_loop : List Bytes → Bytes → Bytes
active_profile_loop [] response = response
active_profile_loop (l ∷ ls) response = active_profile_loop ls (trim_space l)

abbrev pub get_active_profile : Option (List Bytes) → Option Bytes
unfolding active_profile_loop
get_active_profile file = elim file [ none ↦ none | some ls ↦ some (active_profile_loop ls []) ]

abbrev pub bootcmdline_key : String
bootcmdline_key = "TUNED_BOOT_CMDLINE="

unfoldable pub all_but_last : Bytes → Bytes
all_but_last [] = []
all_but_last (c ∷ []) = []
all_but_last (c ∷ d ∷ s) = c ∷ all_but_last (d ∷ s)

-- `responseString[1 : len(responseString)-1]` behind a quote; none where the quote is all there is, and
-- Go panics.
unfoldable pub unquote : Bytes → Option Bytes
unquote [] = some []
unquote (c ∷ s) =
    if c == b'"' || c == quote
    then elim s [ [] ↦ none | d ∷ t ↦ some (all_but_last (d ∷ t)) ]
    else some (c ∷ s)

-- The loop of GetBootcmdline.
unfoldable pub bootcmdline_loop : List Bytes → Bytes → Option Bytes
bootcmdline_loop [] response = some response
bootcmdline_loop (l ∷ ls) response = elim (starts_with (utf8 bootcmdline_key) (trim_space l)) [
  | false ↦ bootcmdline_loop ls response
  | true ↦ elim (unquote (drop (length (utf8 bootcmdline_key)) (trim_space l))) [
    | none ↦ none
    | some s ↦ bootcmdline_loop ls s
  ]
]

abbrev pub Annotations : Type 0
Annotations = Dict String Bytes

-- `m[k]` of a map of strings.
abbrev pub annotation_at : String → Annotations → Bytes
annotation_at k m = elim (lookup k m) [ none ↦ [] | some v ↦ v ]

-- The loop of updateNodeAnnotations, with `change`.
unfoldable pub annotate : Annotations → Annotations → Bool → Annotations × Bool
annotate [] old change = (old, change)
annotate ((k, v) ∷ annotations) old change =
    annotate annotations (insert k v old) (change || not (annotation_at k old == v))

-- updateNodeAnnotations: the annotations sent to the API server, none where nothing is sent.
unfoldable pub update_node_annotations : Annotations → Annotations → Option Annotations
update_node_annotations annotations old =
    let (new, change) = annotate annotations old false in if change then some new else none

-- The status of the Profile.
pub record ProfileStatus : Type 0 where
  pub tuned_profile : Bytes
  pub conditions : List Condition

-- What updateTunedProfile sends, and whether it returns an error.
pub record Update : Type 0 where
  pub node : Option Annotations
  pub status : Option ProfileStatus
  pub failed : Bool

-- The files and the answers of the API server.
pub record World : Type 0 where
  pub bootcmdline_file : Option (List Bytes)
  pub active_profile_file : Option (List Bytes)
  pub profile : Option ProfileStatus
  pub node : Option Annotations
  pub node_updated : Bool
  pub status_updated : Bool

abbrev pub annotation_key : String
annotation_key = "tuned.openshift.io/bootcmdline"

abbrev nothing_sent : Update
nothing_sent = record { node = none; status = none; failed = true }

-- The part of updateTunedProfile that writes the annotation.
unfoldable pub report_bootcmdline : Bytes → Annotations → Option Annotations
report_bootcmdline bootcmdline annotations =
    if elim (lookup annotation_key annotations) [ none ↦ true | some v ↦ not (v == bootcmdline) ]
    then update_node_annotations ((annotation_key, bootcmdline) ∷ []) annotations
    else none

-- The part that writes the status.
unfoldable pub report_status : Bytes → List Condition → ProfileStatus → Option ProfileStatus
report_status active conditions status =
    if status.tuned_profile == active && conditions_equal status.conditions conditions
    then none
    else some (record { tuned_profile = active; conditions = conditions })

module _ (text : Bytes → String) (at_applied at_degraded : ℕ) (world : World)
    (daemon : Daemon) where
  -- updateTunedProfile behind the reading of the two files.
  unfoldable pub send_update : Bytes → ProfileStatus → Bytes → Annotations → Update
  send_update bootcmdline profile active annotations =
      let conditions =
        compute_status_conditions at_applied at_degraded daemon.status (text daemon.stderr)
          profile.conditions in
      let node = report_bootcmdline bootcmdline annotations in
      let status = report_status active conditions profile in
      if elim node [ none ↦ false | some _ ↦ not world.node_updated ]
      then record { node = node; status = none; failed = true }
      else record {
        node = node;
        status = status;
        failed = elim status [ none ↦ false | some _ ↦ not world.status_updated ];
      }

  -- updateTunedProfile; none where GetBootcmdline panics.
  unfoldable pub update_tuned_profile : Option Update
  update_tuned_profile = elim world.bootcmdline_file [
    | none ↦ some nothing_sent
    | some ls ↦ elim (bootcmdline_loop ls []) [
      | none ↦ none
      | some bootcmdline ↦ elim world.profile [
        | none ↦ some nothing_sent
        | some profile ↦ elim (get_active_profile world.active_profile_file) [
          | none ↦ some nothing_sent
          | some active ↦ elim world.node [
            | none ↦ some nothing_sent
            | some annotations ↦ some (send_update bootcmdline profile active annotations)
          ]
        ]
      ]
    ]
  ]
