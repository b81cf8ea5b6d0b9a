-- ===== src/Operator/MachineConfigs/Agree.antt =====
-- pkg/operator/controller.go: allNodesAgreeOnBootcmdline.
use cluster_node_tuning_oper.Base.{
  string_eq, String, Bool, true, false, not, ◌≡◌, refl, arith, List, [], ◌∷◌, ◌==◌, ◌&&◌,
  if◌then◌else◌, any, all, All, ◌↔◌, some, Bool-cases, sym, inl, ◌∙◌, inr,
}
use cluster_node_tuning_oper.Base.Dict.{Dict, lookup, insert, lookup-insert}
use cluster_node_tuning_oper.Operator.State.{TunedState, string_at}
use cluster_node_tuning_oper.Operator.Nodes.{Node}
use cluster_node_tuning_oper.Operator.MachineConfigs.{agree_loop, all_nodes_agree_on_bootcmdline}

-- The kernel command line that the calculator keeps of a node.
abbrev pub cmdline : TunedState → Node → String
cmdline s n = string_at s.bootcmdline n.name

-- A node of this name has another command line.
abbrev pub conflicts : TunedState → String → String → List Node → Bool
conflicts s b k ns = any (λ m. k == m.name && not (b == cmdline s m)) ns

agree_loop-lookup :
    (s : TunedState) (b : String) (ns : List Node) (conflict : Dict String Bool) (m : Bool)
    → let (agree, conflict') = agree_loop s b ns conflict m in
      (agree ≡ (m && all (λ n. b == cmdline s n) ns))
      × ((k : String)
          → lookup k conflict' ≡ (if conflicts s b k ns then some true else lookup k conflict))
unfolding agree_loop
agree_loop-lookup s b [] conflict m = (ground arith, λ k. refl)
agree_loop-lookup s b (n ∷ ns) conflict m = elim (Bool-cases (b == cmdline s n)) [
  | inl same ↦
      let (agree, at) = agree_loop-lookup s b ns conflict m in
      (rw same (ground (arith, agree)), λ k. rw same (ground (arith, at k)))
  | inr other ↦
      let (agree, at) = agree_loop-lookup s b ns (insert n.name true conflict) false in
      (
        rw other (ground (arith, agree)),
        λ k. rw other (ground (arith, at k, lookup-insert k n.name true conflict)),
      )
]

all-All :
    (s : TunedState) (b : String) (ns : List Node)
    → (all (λ n. b == cmdline s n) ns ≡ true) ↔ All (λ n. b ≡ cmdline s n) ns
all-All s b [] = (λ _. tt, λ _. refl)
all-All s b (n ∷ ns) = ground (arith, all-All s b ns)

-- The nodes of a pool agree exactly if all have the command line of the first one; and a node's name is put among the conflicts
-- exactly if a node of that name behind the first has another command line, while the other names keep what the map
-- had for them.
pub all_nodes_agree_on_bootcmdline_iff :
    (s : TunedState) (n : Node) (ns : List Node) (conflict : Dict String Bool)
    → let (agree, conflict') = all_nodes_agree_on_bootcmdline s (n ∷ ns) conflict in
      ((agree ≡ true) ↔ All (λ m. cmdline s n ≡ cmdline s m) ns)
      × ((k : String)
          → lookup k conflict'
            ≡ (if conflicts s (cmdline s n) k ns then some true else lookup k conflict))
unfolding all_nodes_agree_on_bootcmdline
all_nodes_agree_on_bootcmdline_iff s n ns conflict =
    let (agree, at) = agree_loop-lookup s (cmdline s n) ns conflict true in
    let (to, from) = all-All s (cmdline s n) ns in
    ((λ e. to (sym agree ∙ e), λ h. agree ∙ from h), at)
