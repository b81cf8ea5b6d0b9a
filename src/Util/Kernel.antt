-- ===== src/Util/Kernel.antt =====
-- pkg/util/kernel.go. A command line is the list of its bytes, and an index into it a number.
pub mod Scan
pub mod Words
pub mod Split
pub mod Laws
use cluster_node_tuning_oper.Base.{
  ℕ, zero, suc, ◌+◌, ◌-◌, Bool, true, false, not, Option, none, some, List, [], ◌∷◌, ◌++◌, ◌&&◌,
  ◌||◌, ◌==◌, nat_eq, ltb, length, take, drop, any, if◌then◌else◌, Eq,
}

abbrev pub quote : ℕ
quote = b'"'

abbrev pub space : ℕ
space = 32

unfoldable pub is_space : ℕ → Bool
is_space b = b == 32 || b == 12 || b == 10 || b == 13 || b == 9 || b == 11

-- `for start < len(args) && isspace(args[start]) { start++ }`, over the bytes from `start` on.
unfoldable pub skip_spaces : List ℕ → ℕ → ℕ
unfolding is_space
skip_spaces [] start = start
skip_spaces (b ∷ rest) start =
    let next = skip_spaces rest (suc start) in if is_space b then next else start

-- The second loop of nextArg, over the bytes from `i` on: the index at which it stops, and `equals`.
unfoldable pub scan : List ℕ → ℕ → ℕ → Bool → ℕ × ℕ
unfolding is_space
scan [] i equals in_quote = (i, equals)
scan (b ∷ rest) i equals in_quote =
    let next =
      scan rest (suc i) (if equals == 0 && b == b'=' then i else equals)
        (if b == quote then not in_quote else in_quote) in
    if is_space b && not in_quote then (i, equals) else next

-- The body of nextArg behind the first loop, over the bytes from `start` on.
unfoldable pub scan_arg : List ℕ → ℕ → ℕ × ℕ
unfolding scan
scan_arg [] start = (start, 0)
scan_arg (b ∷ rest) start =
    if b == quote then scan rest (suc start) 0 true else scan (b ∷ rest) start 0 false

pub record Arg : Type 0 where
  pub start : ℕ
  pub equals : ℕ
  pub stop : ℕ

unfoldable pub next_arg : List ℕ → ℕ → Arg
unfolding skip_spaces scan_arg
next_arg args start =
    let start' = skip_spaces (drop start args) start in
    let (stop, equals) = scan_arg (drop start' args) start' in
    record { start = start'; equals = equals; stop = stop }

-- `args[a:b]`
abbrev pub slice : List ℕ → ℕ → ℕ → List ℕ
slice args a b = take (b - a) (drop a args)

-- Equality of two byte strings.
unfoldable pub bytes_equal : List ℕ → List ℕ → Bool
bytes_equal [] [] = true
bytes_equal [] (_ ∷ _) = false
bytes_equal (_ ∷ _) [] = false
bytes_equal (x ∷ xs) (y ∷ ys) = x == y && bytes_equal xs ys

-- The key of a parameter, which is looked for in `exclude`.
unfoldable pub arg_key : List ℕ → Arg → List ℕ
arg_key args a = if a.equals == 0 then slice args a.start a.stop else slice args a.start a.equals

unfoldable pub excluded : List (List ℕ) → List ℕ → Arg → Bool
unfolding bytes_equal arg_key
excluded exclude args a =
    not (length exclude == 0) && any (λ v. bytes_equal (arg_key args a) v) exclude

-- `for stop < len(args)`, on fuel. `none` means that the fuel ran out.
unfoldable pub split_loop : ℕ → List ℕ → List (List ℕ) → ℕ → List (List ℕ) → Option (List (List ℕ))
split_loop zero args exclude stop kv = none
split_loop (suc fuel) args exclude stop kv =
    let a = next_arg args stop in
    let arg = slice args a.start a.stop in
    let kv' = if excluded exclude args a || a.start == a.stop then kv else kv ++ (arg ∷ []) in
    let rest = split_loop fuel args exclude a.stop kv' in
    if ltb stop (length args) then rest else some kv

unfoldable pub split_kernel_arguments_without : List ℕ → List (List ℕ) → Option (List (List ℕ))
unfolding split_loop
split_kernel_arguments_without args exclude = split_loop (suc (length args)) args exclude 0 []

unfoldable pub split_kernel_arguments : List ℕ → Option (List (List ℕ))
unfolding split_kernel_arguments_without
split_kernel_arguments args = split_kernel_arguments_without args []

-- Equality of two lists of byte strings, StringSlicesEqual on bytes.
unfoldable pub byte_strings_equal : List (List ℕ) → List (List ℕ) → Bool
unfolding bytes_equal
byte_strings_equal [] [] = true
byte_strings_equal [] (_ ∷ _) = false
byte_strings_equal (_ ∷ _) [] = false
byte_strings_equal (x ∷ xs) (y ∷ ys) = bytes_equal x y && byte_strings_equal xs ys

unfoldable pub kernel_arguments_equal : List ℕ → List ℕ → List (List ℕ) → Option Bool
unfolding split_kernel_arguments_without byte_strings_equal
kernel_arguments_equal args1 args2 exclude = elim (split_kernel_arguments_without args1 exclude) [
  | none ↦ none
  | some a1 ↦ elim (split_kernel_arguments_without args2 exclude) [
    | none ↦ none
    | some a2 ↦ some (byte_strings_equal a1 a2)
  ]
]
