-- ===== src/Daemon/Report/Annotation.antt =====
-- pkg/tuned/controller.go: the annotation that updateTunedProfile writes.
use cluster_node_tuning_oper.Base.{
  if◌then◌else◌, nat_eq, list_eq, string_eq, ◌==◌, ◌≡◌, arith, none, some, String, ◌↔◌,
}
use cluster_node_tuning_oper.Base.Dict.{lookup, lookup-insert}
use cluster_node_tuning_oper.Daemon.Builtin.{Bytes}
use cluster_node_tuning_oper.Daemon.Report.{
  Annotations, annotation_at, annotation_key, annotate, update_node_annotations, report_bootcmdline,
}

-- The annotation is written exactly if the node does not hold the kernel command line, where a missing annotation counts as an
-- empty one; then it is what is written, and the other annotations stay. So an empty command line is never written to a node that has no annotation.
pub report_bootcmdline-lookup :
    (bootcmdline : Bytes) (annotations : Annotations)
    → ((report_bootcmdline bootcmdline annotations ≡ none)
        ↔ (annotation_at annotation_key annotations ≡ bootcmdline))
      × ((sent : Annotations) (k : String)
          → report_bootcmdline bootcmdline annotations ≡ some sent
          → lookup k sent
            ≡ (if k == annotation_key then some bootcmdline else lookup k annotations))
unfolding report_bootcmdline update_node_annotations annotate
report_bootcmdline-lookup bootcmdline annotations = (
  ground arith,
  λ sent k e. ground (arith, lookup-insert k annotation_key bootcmdline annotations),
)
