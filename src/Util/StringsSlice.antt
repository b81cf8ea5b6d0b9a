-- ===== src/Util/StringsSlice.antt =====
-- pkg/util/strings_slice.go.
pub mod Laws
use cluster_node_tuning_oper.Base.{
  String, ℕ, Bool, true, false, not, Option, none, some, List, [], ◌∷◌, ◌&&◌, ◌==◌, string_eq,
  nat_eq, length, all, if◌then◌else◌, get_elem?, suc, zero, option_eq, ◌+◌,
}
use cluster_node_tuning_oper.Base.Dict.{Dict, lookup, insert}

-- The loops that fill the maps `mA` and `mB`.
set_loop : List String → Dict String Bool → Dict String Bool
set_loop [] m = m
set_loop (v ∷ a) m = set_loop a (insert v true m)

-- `m[v]`, which is false for a missing key.
in_set : Dict String Bool → String → Bool
in_set m v = elim (lookup v m) [ none ↦ false | some b ↦ b ]

unfoldable pub string_slices_as_sets_equal : List String → List String → Bool
unfolding set_loop in_set
string_slices_as_sets_equal a b =
    let m_a = set_loop a [] in
    let m_b = set_loop b [] in
    if not (length m_a == length m_b) then false else all (λ v. in_set m_b v) a

-- The loop of StringSlicesEqual from the index `i` on.
equal_loop : List String → List String → ℕ → Bool
equal_loop [] b i = true
equal_loop (v ∷ a) b i = some v == get_elem? b i && equal_loop a b (suc i)

unfoldable pub string_slices_equal : List String → List String → Bool
unfolding equal_loop
string_slices_equal a b = if not (length a == length b) then false else equal_loop a b 0
