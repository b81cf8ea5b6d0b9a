-- ===== src/Util/StringsMap.antt =====
-- pkg/util/strings_map.go. A `map[string]string` is a list of entries in the order of iteration.
pub mod Laws
use cluster_node_tuning_oper.Base.{
  String, Bool, true, false, Option, none, some, List, [], ◌∷◌, ◌&&◌, ◌==◌, string_eq, nat_eq,
  length, all,
}
use cluster_node_tuning_oper.Base.Dict.{Dict, lookup, insert}

abbrev pub Labels : Type 0
Labels = Dict String String

-- The loop of MapOfStringsCopy, into the map `b`.
copy_loop : Labels → Labels → Labels
copy_loop [] b = b
copy_loop ((k, v) ∷ a) b = copy_loop a (insert k v b)

unfoldable pub map_of_strings_copy : Labels → Labels
unfolding copy_loop
map_of_strings_copy a = copy_loop a []

-- `w, ok := b[k]; ok && v == w`
unfoldable pub has_entry : Labels → String → String → Bool
has_entry b k v = elim (lookup k b) [ none ↦ false | some w ↦ v == w ]

unfoldable pub map_of_strings_equal : Labels → Labels → Bool
map_of_strings_equal a b = length a == length b && all (λ (k, v). has_entry b k v) a

unfoldable pub map_of_strings_contains : Labels → Labels → Bool
map_of_strings_contains a b = all (λ (k, v). has_entry a k v) b
