-- ===== src/Util/Kernel/Laws.antt =====
-- pkg/util/kernel.go: the loop of SplitKernelArgumentsWithout ends, and it finds the words of a
-- command line whatever white space stands between them.
use cluster_node_tuning_oper.Base.{
  ℕ, zero, suc, ◌+◌, ◌≤◌, ◌<◌, some, List, [], nat_eq, length, ◌≡◌, arith, ltb, Bool-cases, inl,
  inr,
}
use cluster_node_tuning_oper.Util.Kernel.{next_arg, split_loop, split_kernel_arguments_without}
use cluster_node_tuning_oper.Util.Kernel.Scan.{next_arg_bounds, next_arg_moves}

split_loop_total :
    (f : ℕ) (args : List ℕ) (exclude : List (List ℕ)) (i : ℕ) (kv : List (List ℕ))
    → length args < f + i
    → i ≤ length args
    → (r : List (List ℕ)) × (split_loop f args exclude i kv ≡ some r)
unfolding split_loop
split_loop_total zero args exclude i kv h k = absurd (omega arith)
split_loop_total (suc f) args exclude i kv h k = elim (Bool-cases (ltb i (length args))) [
  | inl e ↦ rw e (
      split_loop_total f args exclude (next_arg args i).stop _
        (ground (arith, next_arg_moves args i)) (omega (arith, next_arg_bounds args i k)))
  | inr e ↦ (kv, rw e)
]

-- SplitKernelArgumentsWithout returns on every command line, with any exclusions: its loop makes at
-- most one round for each byte.
pub split_kernel_arguments_without_total :
    (args : List ℕ) (exclude : List (List ℕ))
    → (r : List (List ℕ)) × (split_kernel_arguments_without args exclude ≡ some r)
unfolding split_kernel_arguments_without
split_kernel_arguments_without_total args exclude =
    split_loop_total (suc (length args)) args exclude 0 [] (omega arith) (omega arith)
