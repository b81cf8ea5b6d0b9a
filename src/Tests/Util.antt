-- ===== src/Tests/Util.antt =====
-- pkg/util at concrete inputs.
use cluster_node_tuning_oper.Base.{ℕ, some, List, [], ◌∷◌, ◌≡◌, refl, string_eq, nat_eq, option_eq}
use cluster_node_tuning_oper.Util.Kernel.{
  is_space, split_kernel_arguments, split_kernel_arguments_without,
}
use cluster_node_tuning_oper.Util.Kernel.Laws.{split_kernel_arguments_without_total}
use cluster_node_tuning_oper.Util.Kernel.Words.{Spells, blank, word, closed_word}
use cluster_node_tuning_oper.Util.Kernel.Split.{split_kernel_arguments-Spells}

-- ` a=" "`, a gap and a word with a quoted space.
abbrev quoted : List ℕ
quoted = b'a' ∷ b'=' ∷ b'"' ∷ b' ' ∷ b'"' ∷ []

abbrev line : List ℕ
line = b' ' ∷ quoted

abbrev wide : List ℕ
wide = b' ' ∷ b' ' ∷ b'a' ∷ b'=' ∷ b'"' ∷ b' ' ∷ b'"' ∷ b' ' ∷ []

line-Spells : Spells (quoted ∷ []) line
unfolding closed_word is_space nat_eq
line-Spells = word (b' ' ∷ []) quoted (refl, tt) refl tt (blank [] tt)

wide-Spells : Spells (quoted ∷ []) wide
unfolding closed_word is_space nat_eq
wide-Spells =
    word (b' ' ∷ b' ' ∷ []) quoted (refl, (refl, tt)) refl refl (blank (b' ' ∷ []) (refl, tt))

split_kernel_arguments_without_total_example :
    (r : List (List ℕ)) × (split_kernel_arguments_without line ((b'a' ∷ []) ∷ []) ≡ some r)
split_kernel_arguments_without_total_example =
    split_kernel_arguments_without_total line ((b'a' ∷ []) ∷ [])

split_kernel_arguments-Spells_example : split_kernel_arguments wide ≡ some (quoted ∷ [])
split_kernel_arguments-Spells_example = split_kernel_arguments-Spells wide-Spells
