-- ===== src/Util/Kernel/Words.antt =====
-- pkg/util/kernel.go: SplitKernelArguments finds the words of a command line, whatever white space
-- stands between them.
use cluster_node_tuning_oper.Base.{
  ℕ, zero, suc, ◌+◌, ◌-◌, Bool, true, false, not, List, [], ◌∷◌, ◌++◌, ◌&&◌, ◌==◌, nat_eq, length,
  take, drop, if◌then◌else◌, ◌≡◌, refl, ap, ◌∙◌, arith, All,
}
use cluster_node_tuning_oper.Util.Kernel.{
  is_space, skip_spaces, scan, scan_arg, next_arg, quote, slice,
}

-- A run of white space.
abbrev pub IsGap : List ℕ → Type 0
IsGap = All (λ b. is_space b ≡ true)

-- No white space outside quotes, and the quotes are closed at the end.
unfoldable pub closed_word : Bool → List ℕ → Bool
closed_word in_quote [] = not in_quote
closed_word in_quote (b ∷ w) =
    not (is_space b && not in_quote)
    && closed_word (if b == quote then not in_quote else in_quote) w

abbrev pub IsWord : List ℕ → Type 0
IsWord [] = ⊥
IsWord (b ∷ w) = closed_word false (b ∷ w) ≡ true

-- The text ends, or goes on with white space.
abbrev pub IsBreak : List ℕ → Type 0
IsBreak [] = Unit
IsBreak (b ∷ _) = is_space b ≡ true

-- A command line that spells the words: each stands behind a gap, and a gap or the end follows it.
pub data Spells : List (List ℕ) → List ℕ → Type 0 where
  blank : (g : List ℕ) → IsGap g → Spells [] g
  word :
      (g w : List ℕ) {ws : List (List ℕ)} {rest : List ℕ}
      → IsGap g
      → IsWord w
      → IsBreak rest
      → Spells ws rest
      → Spells (w ∷ ws) (g ++ (w ++ rest))

pub skip_gap-nil : (g : List ℕ) (i : ℕ) → IsGap g → skip_spaces g i ≡ i + length g
unfolding skip_spaces
skip_gap-nil [] i h = omega arith
skip_gap-nil (b ∷ g) i h = rw h.0 (omega (arith, skip_gap-nil g (suc i) h.1))

skip_gap :
    (g : List ℕ) (b : ℕ) (s : List ℕ) (i : ℕ)
    → IsGap g
    → is_space b ≡ false
    → skip_spaces (g ++ (b ∷ s)) i ≡ i + length g
unfolding skip_spaces
skip_gap [] b s i h k = rw k (omega arith)
skip_gap (c ∷ g) b s i h k = rw h.0 (omega (arith, skip_gap g b s (suc i) h.1 k))

scan-break : (rest : List ℕ) (i e : ℕ) → IsBreak rest → (scan rest i e false).0 ≡ i
unfolding scan
scan-break [] i e h = refl
scan-break (b ∷ rest) i e h = rw h

scan-word :
    (w rest : List ℕ) (i e : ℕ) (q : Bool)
    → closed_word q w ≡ true
    → IsBreak rest
    → (scan (w ++ rest) i e q).0 ≡ i + length w
unfolding closed_word scan
scan-word [] rest i e true c h = cc
scan-word [] rest i e false c h = scan-break rest i e h ∙ omega arith
scan-word (b ∷ w) rest i e q c h = ground (
  arith,
  scan-word w rest (suc i) (if e == 0 && b == b'=' then i else e) (if b == quote then not q else q),
)

scan_arg-word :
    (b : ℕ) (w rest : List ℕ) (i : ℕ)
    → IsWord (b ∷ w)
    → IsBreak rest
    → (scan_arg (b ∷ (w ++ rest)) i).0 ≡ i + length (b ∷ w)
unfolding scan_arg closed_word
scan_arg-word b w rest i c h =
    ground (arith, scan-word w rest (suc i) 0 true, scan-word (b ∷ w) rest i 0 false)

word-solid : (b : ℕ) (w : List ℕ) → IsWord (b ∷ w) → is_space b ≡ false
unfolding closed_word
word-solid b w h = ground arith

pub drop-append : (xs ys : List ℕ) → drop (length xs) (xs ++ ys) ≡ ys
drop-append [] ys = refl
drop-append (x ∷ xs) ys = drop-append xs ys

pub drop-nil : (m : ℕ) → drop {A = ℕ} m [] ≡ []
drop-nil zero = refl
drop-nil (suc m) = refl

drop-add : (n m k : ℕ) (xs : List ℕ) → k ≡ n + m → drop k xs ≡ drop m (drop n xs)
drop-add zero m k xs e = let e' : k ≡ m = omega arith in rw e'
drop-add (suc n) m k [] e = let e' : k ≡ suc (n + m) = omega arith in rw e' (rw (drop-nil m))
drop-add (suc n) m k (x ∷ xs) e =
    let e' : k ≡ suc (n + m) = omega arith in rw e' (drop-add n m (n + m) xs refl)

take-append : (xs ys : List ℕ) (k : ℕ) → k ≡ length xs → take k (xs ++ ys) ≡ xs
take-append [] ys k e = rw e
take-append (x ∷ xs) ys k e = rw e (ap (λ l. x ∷ l) (take-append xs ys (length xs) refl))

-- What is left of the text behind a known part of it.
pub drop_past :
    (args pre rest : List ℕ) (i k : ℕ)
    → drop i args ≡ pre ++ rest
    → k ≡ i + length pre
    → drop k args ≡ rest
drop_past args pre rest i k d e = drop-add i (length pre) k args e ∙ rw d (drop-append pre rest)

pub next_arg-start :
    (args s : List ℕ) (i k : ℕ)
    → drop i args ≡ s
    → skip_spaces s i ≡ k
    → (next_arg args i).start ≡ k
unfolding next_arg
next_arg-start args s i k d e = rw d e

pub next_arg-stop :
    (args s : List ℕ) (i k n : ℕ)
    → (next_arg args i).start ≡ k
    → drop k args ≡ s
    → (scan_arg s k).0 ≡ n
    → (next_arg args i).stop ≡ n
unfolding next_arg
next_arg-stop args s i k n e d h = rw (e, d) h

-- nextArg on a gap and a word: the word is the slice that it returns, and the text goes on behind it.
pub record Step (args : List ℕ) (i : ℕ) (g w rest : List ℕ) : Type 0 where
  pub start : (next_arg args i).start ≡ i + length g
  pub stop : (next_arg args i).stop ≡ i + length g + length w
  pub left : drop (next_arg args i).stop args ≡ rest
  pub found : slice args (next_arg args i).start (next_arg args i).stop ≡ w

pub next_arg-word :
    (args : List ℕ) (i : ℕ) (g : List ℕ) (b : ℕ) (w rest : List ℕ)
    → drop i args ≡ g ++ ((b ∷ w) ++ rest)
    → IsGap g
    → IsWord (b ∷ w)
    → IsBreak rest
    → Step args i g (b ∷ w) rest
next_arg-word args i g b w rest d hg hw hr =
    let k = i + length g in
    let here = drop_past args g ((b ∷ w) ++ rest) i k d refl in
    let starts =
      next_arg-start args (g ++ ((b ∷ w) ++ rest)) i k d
        (skip_gap g b (w ++ rest) i hg (word-solid b w hw)) in
    let stops =
      next_arg-stop args ((b ∷ w) ++ rest) i k (k + length (b ∷ w)) starts here
        (scan_arg-word b w rest k hw hr) in
    record {
      start = starts;
      stop = stops;
      left = drop_past args (b ∷ w) rest k (next_arg args i).stop here stops;
      found =
          rw starts (rw here (take-append (b ∷ w) rest ((next_arg args i).stop - k) (omega arith)));
    }
