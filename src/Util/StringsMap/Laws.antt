-- ===== src/Util/StringsMap/Laws.antt =====
-- pkg/util/strings_map.go: the copy holds what the map holds, and the two tests decide equality and
-- inclusion of maps whatever the order of iteration.
use cluster_node_tuning_oper.Base.{
  String, true, none, some, [], ◌∷◌, string_eq, nat_eq, length, all, arith, ◌≡◌, refl, ◌↔◌, ◌∙◌,
  sym,
}
use cluster_node_tuning_oper.Base.Dict.{
  lookup, insert, NodupKeys, Within, lookup-cons, lookup-insert, insert-NodupKeys,
  lookup-eq_of_Within, length-eq_of_lookup,
}
use cluster_node_tuning_oper.Util.StringsMap.{
  Labels, copy_loop, map_of_strings_copy, has_entry, map_of_strings_equal, map_of_strings_contains,
}

pub has_entry_iff : (b : Labels) (k v : String) → (has_entry b k v ≡ true) ↔ (lookup k b ≡ some v)
unfolding has_entry
has_entry_iff b k v = (λ h. ground arith, λ h. ground arith)

Within-of_all :
    (a b : Labels) (k v : String)
    → all (λ (k, v). has_entry b k v) a ≡ true
    → lookup k a ≡ some v
    → lookup k b ≡ some v
unfolding lookup
Within-of_all [] b k v h e = cc
Within-of_all ((j, w) ∷ a) b k v h e =
    ground (arith, Within-of_all a b k v, (has_entry_iff b j w).0)

all-of_Within : (a b : Labels) → NodupKeys a → Within a b → all (λ (k, v). has_entry b k v) a ≡ true
all-of_Within [] b u h = refl
all-of_Within ((j, w) ∷ a) b (fresh, u) h =
    rw ((has_entry_iff b j w).1 (h j w (unfold lookup in ground arith)))
      (all-of_Within a b u (λ k v e. h k v (rw lookup-cons (ground arith))))

-- Maps, with one entry for a key, are equal for MapOfStringsEqual exactly if they hold the same, whatever the order in which
-- they are iterated.
pub map_of_strings_equal_iff :
    (a b : Labels)
    → NodupKeys a
    → NodupKeys b
    → (map_of_strings_equal a b ≡ true) ↔ ((k : String) → lookup k a ≡ lookup k b)
unfolding map_of_strings_equal
map_of_strings_equal_iff a b u u' = (
  λ h. lookup-eq_of_Within a b u u' (ground arith) (λ k v. Within-of_all a b k v (ground arith)),
  λ h.
      let same : length a ≡ length b = length-eq_of_lookup a b u u' h in
      let inside : all (λ (k, v). has_entry b k v) a ≡ true =
        all-of_Within a b u (λ k v e. sym (h k) ∙ e) in
      ground arith,
)

-- MapOfStringsContains holds exactly if the first map holds every entry of the second, which
-- has one entry for a key.
pub map_of_strings_contains_iff :
    (a b : Labels) → NodupKeys b → (map_of_strings_contains a b ≡ true) ↔ Within b a
unfolding map_of_strings_contains
map_of_strings_contains_iff a b u = (λ h k v. Within-of_all b a k v h, all-of_Within b a u)

lookup-copy_loop :
    (a b : Labels) (k : String)
    → NodupKeys a
    → lookup k (copy_loop a b) ≡ (elim (lookup k a) [ none ↦ lookup k b | some v ↦ some v ])
unfolding copy_loop lookup
lookup-copy_loop [] b k u = refl
lookup-copy_loop ((j, w) ∷ a) b k (fresh, u) =
    ground (arith, lookup-copy_loop a (insert j w b) k u, lookup-insert k j w b)

copy_loop-NodupKeys : (a b : Labels) → NodupKeys b → NodupKeys (copy_loop a b)
unfolding copy_loop
copy_loop-NodupKeys [] b u = u
copy_loop-NodupKeys ((j, w) ∷ a) b u =
    copy_loop-NodupKeys a (insert j w b) (insert-NodupKeys j w b u)

-- A copy is a map that MapOfStringsEqual finds equal to the original.
pub map_of_strings_copy-NodupKeys : (a : Labels) → NodupKeys (map_of_strings_copy a)
unfolding map_of_strings_copy
map_of_strings_copy-NodupKeys a = copy_loop-NodupKeys a [] tt

pub lookup-map_of_strings_copy :
    (a : Labels) (k : String) → NodupKeys a → lookup k (map_of_strings_copy a) ≡ lookup k a
unfolding map_of_strings_copy lookup
lookup-map_of_strings_copy a k u = ground (arith, lookup-copy_loop a [] k u)

pub map_of_strings_equal-copy :
    (a : Labels) → NodupKeys a → map_of_strings_equal (map_of_strings_copy a) a ≡ true
map_of_strings_equal-copy a u =
    (map_of_strings_equal_iff (map_of_strings_copy a) a (map_of_strings_copy-NodupKeys a) u).1
      (λ k. lookup-map_of_strings_copy a k u)
