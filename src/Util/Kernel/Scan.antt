-- ===== src/Util/Kernel/Scan.antt =====
-- The scanner of pkg/util/kernel.go: where nextArg starts and stops.
use cluster_node_tuning_oper.Base.{
  ℕ, zero, suc, ◌+◌, ◌-◌, ◌≤◌, ◌<◌, Bool, false, not, List, [], ◌∷◌, ◌&&◌, ◌==◌, nat_eq, length,
  drop, if◌then◌else◌, ◌≡◌, arith, ◌⊎◌, inl, inr, Bool-cases, ap, true, refl,
}
use cluster_node_tuning_oper.Util.Kernel.{is_space, skip_spaces, scan, scan_arg, next_arg, quote}

pub length-drop : (n : ℕ) (xs : List ℕ) → length (drop n xs) ≡ length xs - n
length-drop zero xs = omega arith
length-drop (suc n) [] = omega arith
length-drop (suc n) (x ∷ xs) = omega (arith, length-drop n xs)

skip_spaces_bounds :
    (bs : List ℕ) (i : ℕ) → (i ≤ skip_spaces bs i) × (skip_spaces bs i ≤ i + length bs)
unfolding skip_spaces
skip_spaces_bounds [] i = omega arith
skip_spaces_bounds (b ∷ bs) i = ground (arith, skip_spaces_bounds bs (suc i))

-- Where nothing is skipped the first byte is not a space.
skip_spaces_stuck :
    (b : ℕ) (bs : List ℕ) (i : ℕ) → (i < skip_spaces (b ∷ bs) i) ⊎ (is_space b ≡ false)
unfolding skip_spaces
skip_spaces_stuck b bs i = elim (Bool-cases (is_space b)) [
  | inl e ↦ inl (ground (arith, skip_spaces_bounds bs (suc i)))
  | inr e ↦ inr e
]

scan_bounds :
    (bs : List ℕ) (i e : ℕ) (q : Bool)
    → (i ≤ (scan bs i e q).0) × ((scan bs i e q).0 ≤ i + length bs)
unfolding scan
scan_bounds [] i e q = omega arith
scan_bounds (b ∷ bs) i e q = ground (
  arith,
  scan_bounds bs (suc i) (if e == 0 && b == b'=' then i else e) (if b == quote then not q else q),
)

-- A byte that is no space is taken into the parameter.
scan_arg_bounds :
    (bs : List ℕ) (i : ℕ) → (i ≤ (scan_arg bs i).0) × ((scan_arg bs i).0 ≤ i + length bs)
unfolding scan_arg
scan_arg_bounds [] i = omega arith
scan_arg_bounds (b ∷ bs) i =
    ground (arith, scan_bounds bs (suc i) 0 true, scan_bounds (b ∷ bs) i 0 false)

scan_arg_moves : (b : ℕ) (bs : List ℕ) (i : ℕ) → is_space b ≡ false → i < (scan_arg (b ∷ bs) i).0
unfolding scan_arg
scan_arg_moves b bs i h = ground (
  arith,
  scan_bounds bs (suc i) 0 true,
  scan_bounds bs (suc i) (if ◌==◌ {A = ℕ} 0 0 && b == b'=' then i else 0)
      (if b == quote then not false else false),
)

-- From an index within the text, nextArg returns start and stop in order, within the text, and not
-- before that index.
pub next_arg_bounds :
    (args : List ℕ) (i : ℕ)
    → i ≤ length args
    → (i ≤ (next_arg args i).start)
      × ((next_arg args i).start ≤ (next_arg args i).stop)
      × ((next_arg args i).stop ≤ length args)
unfolding next_arg
next_arg_bounds args i h =
    let s = skip_spaces (drop i args) i in
    omega (
      arith,
      skip_spaces_bounds (drop i args) i,
      scan_arg_bounds (drop s args) s,
      length-drop i args,
      length-drop s args,
    )

moves_from :
    (args suffix : List ℕ) (i : ℕ)
    → drop i args ≡ suffix
    → i < length args
    → i < (next_arg args i).stop
unfolding next_arg
moves_from args [] i e h = absurd (omega (arith, ap length e, length-drop i args))
moves_from args (b ∷ bs) i e h = elim (skip_spaces_stuck b bs i) [
  | inl far ↦
      let far' : i < skip_spaces (drop i args) i = rw e far in
      omega (
        arith,
        scan_arg_bounds (drop (skip_spaces (drop i args) i) args) (skip_spaces (drop i args) i),
      )
  | inr solid ↦ rw (e, skip_spaces) (rw (solid, e) (scan_arg_moves b bs i solid))
]

-- nextArg moves on at every index within the text.
pub next_arg_moves : (args : List ℕ) (i : ℕ) → i < length args → i < (next_arg args i).stop
next_arg_moves args i h = moves_from args (drop i args) i refl h
