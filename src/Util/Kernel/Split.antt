-- ===== src/Util/Kernel/Split.antt =====
-- pkg/util/kernel.go: SplitKernelArguments and KernelArgumentsEqual on command lines that spell words.
use mathlib.Core.List.{append-nil, append_assoc}
use cluster_node_tuning_oper.Base.{
  ℕ, zero, suc, ◌+◌, ◌≤◌, ◌<◌, true, false, some, List, [], ◌∷◌, ◌++◌, ◌==◌, nat_eq, length, drop,
  if◌then◌else◌, ◌≡◌, refl, ap, sym, ◌∙◌, arith, ◌↔◌, length-append,
}
use cluster_node_tuning_oper.Util.Kernel.{
  Arg, next_arg, excluded, split_loop, split_kernel_arguments_without, split_kernel_arguments,
  bytes_equal, byte_strings_equal, kernel_arguments_equal, scan_arg, slice,
}
use cluster_node_tuning_oper.Util.Kernel.Scan.{length-drop}
use cluster_node_tuning_oper.Util.Kernel.Words.{
  IsGap, Spells, blank, word, next_arg-word, drop_past, skip_gap-nil, next_arg-start, next_arg-stop,
}

split_loop-past :
    (f : ℕ) (args : List ℕ) (i : ℕ) (kv : List (List ℕ))
    → 0 < f
    → length args ≤ i
    → split_loop f args [] i kv ≡ some kv
unfolding split_loop
split_loop-past zero args i kv h k = absurd (omega arith)
split_loop-past (suc f) args i kv h k = ground arith

excluded-nil : (args : List ℕ) (a : Arg) → excluded [] args a ≡ false
unfolding excluded
excluded-nil args a = ground arith

-- One round of the loop, with nothing excluded.
split_loop-step :
    (f : ℕ) (args : List ℕ) (i a b : ℕ) (kv : List (List ℕ))
    → (next_arg args i).start ≡ a
    → (next_arg args i).stop ≡ b
    → i < length args
    → split_loop (suc f) args [] i kv
      ≡ split_loop f args [] b (if a == b then kv else kv ++ (slice args a b ∷ []))
unfolding split_loop
split_loop-step f args i a b kv p q h =
    rw (excluded-nil args (next_arg args i), p, q) (ground arith)

scan_arg-nil : (i : ℕ) → (scan_arg [] i).0 ≡ i
unfolding scan_arg
scan_arg-nil i = refl

-- White space at the end adds no word.
split_loop-gap :
    (f : ℕ) (args g : List ℕ) (i : ℕ) (kv : List (List ℕ))
    → drop i args ≡ g
    → IsGap g
    → length g < f
    → i ≤ length args
    → split_loop f args [] i kv ≡ some kv
split_loop-gap f args [] i kv d h k b =
    split_loop-past f args i kv k (omega (arith, ap length d, length-drop i args))
split_loop-gap zero args (c ∷ g) i kv d h k b = absurd (omega arith)
split_loop-gap (suc f) args (c ∷ g) i kv d h k b =
    let e = i + length (c ∷ g) in
    let size : e ≡ length args = omega (arith, ap length d, length-drop i args) in
    let starts = next_arg-start args (c ∷ g) i e d (skip_gap-nil (c ∷ g) i h) in
    let behind = drop_past args (c ∷ g) [] i e (d ∙ sym (append-nil (c ∷ g))) refl in
    let stops = next_arg-stop args [] i e e starts behind (scan_arg-nil e) in
    split_loop-step f args i e e kv starts stops (omega arith)
    ∙ (ground (arith, split_loop-past f args e kv (omega arith) (omega arith)))

split_loop-Spells :
    {ws : List (List ℕ)} {s : List ℕ} (f : ℕ) (args : List ℕ) (i : ℕ) (kv : List (List ℕ))
    → Spells ws s
    → drop i args ≡ s
    → length s < f
    → i ≤ length args
    → split_loop f args [] i kv ≡ some (kv ++ ws)
split_loop-Spells f args i kv (blank g h) d k b =
    rw (append-nil kv) (split_loop-gap f args g i kv d h k b)
split_loop-Spells f args i kv (word g [] hg hw hr sp) d k b = absurd hw
split_loop-Spells zero args i kv (word g (c ∷ w) hg hw hr sp) d k b = absurd (omega arith)
split_loop-Spells (suc f) args i kv (word g (c ∷ w) {ws} {rest} hg hw hr sp) d k b =
    let st = next_arg-word args i g c w rest d hg hw hr in
    let sizes = length-append g ((c ∷ w) ++ rest) in
    let sizes' = length-append (c ∷ w) rest in
    let total : length (drop i args) ≡ length (g ++ ((c ∷ w) ++ rest)) = ap length d in
    let stop = (next_arg args i).stop in
    split_loop-step f args i (next_arg args i).start stop kv refl refl
      (omega (arith, length-drop i args))
    ∙ rw st.found (
        ground (
          arith,
          st.start,
          st.stop,
          split_loop-Spells f args stop (kv ++ ((c ∷ w) ∷ [])) sp st.left (omega arith)
                (omega (arith, length-drop i args, st.stop))
              ∙ ap some (append_assoc kv ((c ∷ w) ∷ []) ws),
        ))

-- A command line that spells words, behind any gaps and with quotes round white space, is split into
-- just these words.
pub split_kernel_arguments-Spells :
    {ws : List (List ℕ)} {s : List ℕ} → Spells ws s → split_kernel_arguments s ≡ some ws
unfolding split_kernel_arguments
split_kernel_arguments-Spells {s} sp =
    split_loop-Spells (suc (length s)) s 0 [] sp refl (omega arith) (omega arith)

bytes_equal_iff : (a b : List ℕ) → (bytes_equal a b ≡ true) ↔ (a ≡ b)
unfolding bytes_equal
bytes_equal_iff [] [] = (λ h. refl, λ h. refl)
bytes_equal_iff [] (_ ∷ _) = (λ h. cc, λ h. cc)
bytes_equal_iff (_ ∷ _) [] = (λ h. cc, λ h. cc)
bytes_equal_iff (x ∷ a) (y ∷ b) = ground (arith, bytes_equal_iff a b)

byte_strings_equal_iff : (a b : List (List ℕ)) → (byte_strings_equal a b ≡ true) ↔ (a ≡ b)
unfolding byte_strings_equal
byte_strings_equal_iff [] [] = (λ h. refl, λ h. refl)
byte_strings_equal_iff [] (_ ∷ _) = (λ h. cc, λ h. cc)
byte_strings_equal_iff (_ ∷ _) [] = (λ h. cc, λ h. cc)
byte_strings_equal_iff (x ∷ a) (y ∷ b) =
    ground (arith, bytes_equal_iff x y, byte_strings_equal_iff a b)

-- Two command lines that spell words are equal for KernelArgumentsEqual, with nothing excluded,
-- exactly if they spell the same words in the same order.
pub kernel_arguments_equal-Spells :
    {ws vs : List (List ℕ)} {s t : List ℕ}
    → Spells ws s
    → Spells vs t
    → (kernel_arguments_equal s t [] ≡ some true) ↔ (ws ≡ vs)
unfolding kernel_arguments_equal split_kernel_arguments
kernel_arguments_equal-Spells {ws} {vs} {s} {t} p q =
    let left : split_kernel_arguments_without s [] ≡ some ws = split_kernel_arguments-Spells p in
    let right : split_kernel_arguments_without t [] ≡ some vs = split_kernel_arguments-Spells q in
    rw (left, right, kernel_arguments_equal) (ground (arith, byte_strings_equal_iff ws vs))
