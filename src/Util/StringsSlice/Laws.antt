-- ===== src/Util/StringsSlice/Laws.antt =====
-- pkg/util/strings_slice.go: the two tests decide equality of slices as sets and as sequences.
use cluster_node_tuning_oper.Base.{
  String, ℕ, Bool, true, false, some, List, [], ◌∷◌, ◌||◌, ◌&&◌, ◌==◌, string_eq, nat_eq, length,
  all, if◌then◌else◌, get_elem?, suc, option_eq, arith, ◌≡◌, refl, sym, ◌∙◌, ◌↔◌, bool_eq, ap,
}
use cluster_node_tuning_oper.Base.Dict.{
  Dict, lookup, insert, NodupKeys, Within, lookup-insert, insert-NodupKeys, lookup-eq_of_Within,
  length-eq_of_lookup,
}
use cluster_node_tuning_oper.Util.StringsSlice.{
  set_loop, in_set, string_slices_as_sets_equal, equal_loop, string_slices_equal,
}

-- The string stands in the slice.
unfoldable pub contains : List String → String → Bool
contains [] v = false
contains (x ∷ xs) v = v == x || contains xs v

lookup-set_loop :
    (a : List String) (m : Dict String Bool) (v : String)
    → lookup v (set_loop a m) ≡ (if contains a v then some true else lookup v m)
unfolding set_loop contains
lookup-set_loop [] m v = refl
lookup-set_loop (x ∷ a) m v =
    ground (arith, lookup-set_loop a (insert x true m) v, lookup-insert v x true m)

set_loop-NodupKeys :
    (a : List String) (m : Dict String Bool) → NodupKeys m → NodupKeys (set_loop a m)
unfolding set_loop
set_loop-NodupKeys [] m u = u
set_loop-NodupKeys (x ∷ a) m u =
    set_loop-NodupKeys a (insert x true m) (insert-NodupKeys x true m u)

in_set-set_loop : (a : List String) (v : String) → in_set (set_loop a []) v ≡ contains a v
unfolding in_set lookup
in_set-set_loop a v = ground (arith, lookup-set_loop a [] v)

contains-of_all :
    (p : String → Bool) (a : List String) (v : String)
    → all p a ≡ true
    → contains a v ≡ true
    → p v ≡ true
unfolding contains
contains-of_all p [] v h c = cc
contains-of_all p (x ∷ a) v h c = ground (arith, contains-of_all p a v)

all-of_contains :
    (p : String → Bool) (a : List String)
    → ((v : String) → contains a v ≡ true → p v ≡ true)
    → all p a ≡ true
unfolding contains
all-of_contains p [] h = refl
all-of_contains p (x ∷ a) h =
    rw (h x (ground arith)) (all-of_contains p a (λ v c. h v (ground arith)))

lookup-sets :
    (a b : List String) (v : String)
    → contains a v ≡ contains b v
    → lookup v (set_loop a []) ≡ lookup v (set_loop b [])
lookup-sets a b v h = lookup-set_loop a [] v ∙ rw h (sym (lookup-set_loop b [] v))

Within-sets :
    (a b : List String)
    → all (λ v. in_set (set_loop b []) v) a ≡ true
    → Within (set_loop a []) (set_loop b [])
unfolding lookup
Within-sets a b h k v e = ground (
  arith,
  lookup-set_loop a [] k,
  lookup-set_loop b [] k,
  in_set-set_loop b k,
  contains-of_all (λ v. in_set (set_loop b []) v) a k h,
)

contains-of_lookup :
    (a b : List String) (v : String)
    → lookup v (set_loop a []) ≡ lookup v (set_loop b [])
    → contains a v ≡ contains b v
unfolding lookup
contains-of_lookup a b v h = ground (arith, lookup-set_loop a [] v, lookup-set_loop b [] v)

-- StringSlicesAsSetsEqual holds exactly if the same strings stand in the two slices.
pub string_slices_as_sets_equal_iff :
    (a b : List String)
    → (string_slices_as_sets_equal a b ≡ true) ↔ ((v : String) → contains a v ≡ contains b v)
unfolding string_slices_as_sets_equal
string_slices_as_sets_equal_iff a b = (
  λ h v. contains-of_lookup a b v (
      lookup-eq_of_Within (set_loop a []) (set_loop b []) (set_loop-NodupKeys a [] tt)
        (set_loop-NodupKeys b [] tt) (ground arith) (Within-sets a b (ground arith)) v),
  λ h.
      let same : length (set_loop a []) ≡ length (set_loop b []) =
        length-eq_of_lookup (set_loop a []) (set_loop b []) (set_loop-NodupKeys a [] tt)
          (set_loop-NodupKeys b [] tt) (λ v. lookup-sets a b v (h v)) in
      let inside : all (λ v. in_set (set_loop b []) v) a ≡ true =
        all-of_contains (λ v. in_set (set_loop b []) v) a
          (λ v c. in_set-set_loop b v ∙ sym (h v) ∙ c) in
      ground arith,
)

equal_loop-cons :
    (a b : List String) (w : String) (i : ℕ) → equal_loop a (w ∷ b) (suc i) ≡ equal_loop a b i
unfolding equal_loop
equal_loop-cons [] b w i = refl
equal_loop-cons (v ∷ a) b w i =
    ap (λ t. some v == get_elem? b i && t) (equal_loop-cons a b w (suc i))

eq_of_equal_loop : (a b : List String) → length a ≡ length b → equal_loop a b 0 ≡ true → a ≡ b
unfolding equal_loop
eq_of_equal_loop [] [] s h = refl
eq_of_equal_loop [] (_ ∷ b) s h = absurd (omega arith)
eq_of_equal_loop (_ ∷ a) [] s h = absurd (omega arith)
eq_of_equal_loop (v ∷ a) (w ∷ b) s h =
    ground (arith, eq_of_equal_loop a b (omega arith), equal_loop-cons a b w 0)

equal_loop_refl : (a : List String) → equal_loop a a 0 ≡ true
unfolding equal_loop
equal_loop_refl [] = refl
equal_loop_refl (v ∷ a) = ground (arith, equal_loop_refl a, equal_loop-cons a a v 0)

-- StringSlicesEqual holds exactly if the slices are the same sequence.
pub string_slices_equal_iff : (a b : List String) → (string_slices_equal a b ≡ true) ↔ (a ≡ b)
unfolding string_slices_equal
string_slices_equal_iff a b = (
  λ h. eq_of_equal_loop a b (ground arith) (ground arith),
  λ e. rw (e, string_slices_equal) (ground (arith, equal_loop_refl b)),
)
