-- ===== src/Daemon/Builtin/Call.antt =====
-- pkg/tuned/tuned_parser.go: what expandTuneDBuiltin makes of a text with one function in it.
use cluster_node_tuning_oper.Base.{
  ◌-◌, ℕ, suc, ◌+◌, ◌≡◌, refl, arith, nat_eq, ap, ◌∙◌, All, Bool, List, utf8_code, Option, [], ltb,
  true, ◌++◌, ◌∷◌, ◌&&◌, ◌==◌, not, false, length, ap₂, length-append, map, sym, drop, take,
}
use cluster_node_tuning_oper.Daemon.Builtin.{
  Bytes, dollar, brace, close, colon, backslash, Scanner, append_last, fn_arg, fn_name, init, step,
  step_arg, step_init, step_name, expand_loop, end_call, exec_tuned_builtin, expand,
  expand_tuned_builtin, finish_text, section, dollars, scanner, byte_at_is,
}
use cluster_node_tuning_oper.Daemon.Builtin.Fuel.{expand-fuel}
use mathlib.Core.List.{append_assoc, append-nil}

-- A byte of ASCII that the scanner takes for itself in a name or an argument.
abbrev plain : ℕ → Bool
plain c =
    ltb c 128 && not (c == dollar) && not (c == close) && not (c == colon) && not (c == backslash)

abbrev pub IsPlain : Bytes → Type 0
IsPlain s = All (λ c. plain c ≡ true) s

-- A text of ASCII with no `$`.
abbrev pub IsQuiet : Bytes → Type 0
IsQuiet s = All (λ c. (ltb c 128 && not (c == dollar)) ≡ true) s

-- Whether the text ends in a backslash, with what stands before it.
abbrev pub escapes : Bool → Bytes → Bool
escapes esc [] = esc
escapes esc (c ∷ s) = escapes (c == backslash) s

-- `:arg0:arg1...`
abbrev pub arguments_text : List Bytes → Bytes → Bytes
arguments_text [] rest = rest
arguments_text (a ∷ args) rest = colon ∷ (a ++ arguments_text args rest)

-- `${f:function:arg0:arg1...}`, and what follows it.
unfoldable pub call_before : Bytes → List Bytes → Bytes → Bytes
call_before function args rest =
    dollar ∷ brace ∷ b'f' ∷ colon ∷ (function ++ arguments_text args (close ∷ rest))

abbrev pub call : Bytes → List Bytes → Bytes
call function args = call_before function args []

utf8_code_of_ascii : (c : ℕ) → ltb c 128 ≡ true → utf8_code c ≡ c ∷ []
unfolding utf8_code
utf8_code_of_ascii c h = rw h refl

append_last-append :
    (args : List Bytes) (a t : Bytes) → append_last (args ++ a ∷ []) t ≡ args ++ (a ++ t) ∷ []
unfolding append_last
append_last-append [] a t = refl
append_last-append (b ∷ []) a t = refl
append_last-append (b ∷ b' ∷ args) a t =
    ap (λ (r : List Bytes). b ∷ r) (append_last-append (b' ∷ args) a t)

plain-not_backslash : (c : ℕ) → plain c ≡ true → (c == backslash) ≡ false
plain-not_backslash c h = ground arith

length-arguments_text :
    (b : Bytes) (args : List Bytes)
    → length (b ++ arguments_text args (close ∷ []))
      ≡ length b + length (arguments_text args (close ∷ []))
length-arguments_text b args = length-append b (arguments_text args (close ∷ []))

abbrev at_init : ℕ → Bytes → Scanner
at_init d ret = record {
  phase = init;
  ret = ret;
  function = [];
  i_dollar = d;
  bracket = 0;
  arguments = [];
}

abbrev at_name : ℕ → Bytes → Bytes → Scanner
at_name d ret function = record {
  phase = fn_name;
  ret = ret;
  function = function;
  i_dollar = d;
  bracket = 1;
  arguments = [];
}

abbrev at_arg : ℕ → Bytes → Bytes → List Bytes → Scanner
at_arg d ret function args = record {
  phase = fn_arg;
  ret = ret;
  function = function;
  i_dollar = d;
  bracket = 1;
  arguments = args;
}

module _ (run : List Bytes → Option Bytes) (f : Bytes → Bytes) (s : Bytes) where
  step-init_quiet :
      (c : ℕ) (rest : Bytes) (i d : ℕ) (esc : Bool) (ret : Bytes)
      → (ltb c 128 && not (c == dollar)) ≡ true
      → step run f s init c rest i esc (at_init d ret) ≡ (0, at_init d (ret ++ c ∷ []))
  unfolding step step_init
  step-init_quiet c rest i d esc ret h = ground (arith, utf8_code_of_ascii c)

  step-name_plain :
      (c : ℕ) (rest : Bytes) (i d : ℕ) (ret function : Bytes)
      → plain c ≡ true
      → step run f s fn_name c rest i false (at_name d ret function)
        ≡ (0, at_name d ret (function ++ c ∷ []))
  unfolding step step_name
  step-name_plain c rest i d ret function h = ground (arith, utf8_code_of_ascii c)

  step-arg_plain :
      (c : ℕ) (rest : Bytes) (i d : ℕ) (ret function : Bytes) (args : List Bytes) (a : Bytes)
      → plain c ≡ true
      → step run f s fn_arg c rest i false (at_arg d ret function (args ++ a ∷ []))
        ≡ (0, at_arg d ret function (args ++ (a ++ c ∷ []) ∷ []))
  unfolding step step_arg
  step-arg_plain c rest i d ret function args a h =
      ground (arith, utf8_code_of_ascii c, append_last-append args a (c ∷ []))

  expand_loop-quiet :
      (p rest : Bytes) (i d : ℕ) (esc : Bool) (ret : Bytes)
      → IsQuiet p
      → expand_loop run f s (p ++ rest) i esc 0 (at_init d ret)
        ≡ expand_loop run f s rest (i + length p) (escapes esc p) 0 (at_init d (ret ++ p))
  unfolding expand_loop
  expand_loop-quiet [] rest i d esc ret h =
      ap₂ (λ (j : ℕ) (r : Bytes). expand_loop run f s rest j esc 0 (at_init d r)) (omega arith)
        (sym (append-nil ret))
  expand_loop-quiet (c ∷ p) rest i d esc ret (h, hs) =
      ap (λ (r : ℕ × Scanner). expand_loop run f s (p ++ rest) (suc i) (c == backslash) r.0 r.1)
        (step-init_quiet c (p ++ rest) i d esc ret h)
      ∙ expand_loop-quiet p rest (suc i) d (c == backslash) (ret ++ c ∷ []) hs
      ∙ ap₂
          (λ (j : ℕ) (r : Bytes).
            expand_loop run f s rest j (escapes (c == backslash) p) 0 (at_init d r))
          (omega arith) (append_assoc ret (c ∷ []) p)

  expand_loop-name_plain :
      (p rest : Bytes) (i d : ℕ) (ret function : Bytes)
      → IsPlain p
      → expand_loop run f s (p ++ rest) i false 0 (at_name d ret function)
        ≡ expand_loop run f s rest (i + length p) false 0 (at_name d ret (function ++ p))
  unfolding expand_loop
  expand_loop-name_plain [] rest i d ret function h =
      ap₂ (λ (j : ℕ) (r : Bytes). expand_loop run f s rest j false 0 (at_name d ret r))
        (omega arith) (sym (append-nil function))
  expand_loop-name_plain (c ∷ p) rest i d ret function (h, hs) =
      ap₂ (λ (e : Bool) (r : ℕ × Scanner). expand_loop run f s (p ++ rest) (suc i) e r.0 r.1)
        (plain-not_backslash c h) (step-name_plain c (p ++ rest) i d ret function h)
      ∙ expand_loop-name_plain p rest (suc i) d ret (function ++ c ∷ []) hs
      ∙ ap₂ (λ (j : ℕ) (r : Bytes). expand_loop run f s rest j false 0 (at_name d ret r))
          (omega arith) (append_assoc function (c ∷ []) p)

  expand_loop-arg_plain :
      (p rest : Bytes) (i d : ℕ) (ret function : Bytes) (args : List Bytes) (a : Bytes)
      → IsPlain p
      → expand_loop run f s (p ++ rest) i false 0 (at_arg d ret function (args ++ a ∷ []))
        ≡ expand_loop run f s rest
            (i + length p)
            false
            0
            (at_arg d ret function (args ++ (a ++ p) ∷ []))
  unfolding expand_loop
  expand_loop-arg_plain [] rest i d ret function args a h =
      ap₂
        (λ (j : ℕ) (r : Bytes).
          expand_loop run f s rest j false 0 (at_arg d ret function (args ++ r ∷ [])))
        (omega arith) (sym (append-nil a))
  expand_loop-arg_plain (c ∷ p) rest i d ret function args a (h, hs) =
      ap₂ (λ (e : Bool) (r : ℕ × Scanner). expand_loop run f s (p ++ rest) (suc i) e r.0 r.1)
        (plain-not_backslash c h) (step-arg_plain c (p ++ rest) i d ret function args a h)
      ∙ expand_loop-arg_plain p rest (suc i) d ret function args (a ++ c ∷ []) hs
      ∙ ap₂
          (λ (j : ℕ) (r : Bytes).
            expand_loop run f s rest j false 0 (at_arg d ret function (args ++ r ∷ [])))
          (omega arith) (append_assoc a (c ∷ []) p)

  -- From the end of an argument to behind the closing bracket.
  expand_loop-arguments :
      (args : List Bytes) (rest : Bytes) (i d : ℕ) (ret function : Bytes) (before : List Bytes)
      (a : Bytes)
      → All IsPlain args
      → (j : ℕ) × (suc j ≡ i + length (arguments_text args (close ∷ [])))
        × (expand_loop run f s
              (arguments_text args (close ∷ rest))
              i
              false
              0
              (at_arg d ret function (before ++ a ∷ []))
            ≡ expand_loop run f s rest (suc j) false 0 (
                end_call run f s j
                  (map f (before ++ a ∷ args))
                  (at_arg d ret function (before ++ a ∷ args))))
  unfolding expand_loop step step_arg nat_eq
  expand_loop-arguments [] rest i d ret function before a h = (i, omega arith, refl)
  expand_loop-arguments (b ∷ args) rest i d ret function before a (p, ps) =
      let (j, len, e) =
        expand_loop-arguments args rest (suc i + length b) d ret function (before ++ a ∷ []) b ps in
      (
        j,
        omega (arith, length-arguments_text b args),
        expand_loop-arg_plain b (arguments_text args (close ∷ rest)) (suc i) d ret function
              (before ++ a ∷ []) [] p
            ∙ e
            ∙ ap
                (λ (l : List Bytes).
                  expand_loop run f s rest (suc j) false 0
                    (end_call run f s j (map f l) (at_arg d ret function l)))
                (append_assoc before (a ∷ []) (b ∷ args)),
      )

  -- From behind `${f:` to behind the closing bracket.
  expand_loop-function :
      (function : Bytes) (args : List Bytes) (rest : Bytes) (i d : ℕ) (ret : Bytes)
      → IsPlain function
      → All IsPlain args
      → (j : ℕ) × (suc j ≡ i + length (function ++ arguments_text args (close ∷ [])))
        × (expand_loop run f s
              (function ++ arguments_text args (close ∷ rest))
              i
              false
              0
              (at_name d ret [])
            ≡ expand_loop run f s rest
                (suc j)
                false
                0
                (end_call run f s j (map f args) (at_name d ret function)))
  unfolding expand_loop step step_name nat_eq end_call
  expand_loop-function function [] rest i d ret p ps = (
    i + length function,
    omega (arith, length-append function (close ∷ [])),
    expand_loop-name_plain function (close ∷ rest) i d ret [] p,
  )
  expand_loop-function function (a ∷ args) rest i d ret p (q, qs) =
      let (j, len, e) =
        expand_loop-arguments args rest (suc (i + length function) + length a) d ret function [] a
          qs in
      (
        j,
        omega (
          arith,
          length-append function (arguments_text (a ∷ args) (close ∷ [])),
          length-arguments_text a args,
        ),
        expand_loop-name_plain function (arguments_text (a ∷ args) (close ∷ rest)) i d ret [] p
            ∙ expand_loop-arg_plain a (arguments_text args (close ∷ rest))
                (suc (i + length function)) d ret function [] [] q
            ∙ e,
      )

map-id :
    (f : Bytes → Bytes) (args : List Bytes)
    → ((a : Bytes) → IsPlain a → f a ≡ a)
    → All IsPlain args
    → map f args ≡ args
map-id f [] h ps = refl
map-id f (a ∷ args) h (p, ps) = ap₂ ◌∷◌ (h a p) (map-id f args h ps)

IsPlain-IsQuiet : (s : Bytes) → IsPlain s → IsQuiet s
IsPlain-IsQuiet [] h = tt
IsPlain-IsQuiet (c ∷ s) (h, hs) = (ground arith, IsPlain-IsQuiet s hs)

expand-quiet :
    (run : List Bytes → Option Bytes) (n : ℕ) (s : Bytes) → IsQuiet s → expand run (suc n) s ≡ s
unfolding expand finish_text
expand-quiet run n s h =
    ap (λ (t : Bytes). finish_text s (expand_loop run (expand run n) s t 0 false 0 scanner))
      (sym (append-nil s))
    ∙ ap (finish_text s) (expand_loop-quiet run (expand run n) s s [] 0 0 false [] h)

drop-append : (a b : Bytes) → drop (length a) (a ++ b) ≡ b
drop-append [] b = refl
drop-append (c ∷ a) b = drop-append a b

take-append : (a b : Bytes) → take (length a) (a ++ b) ≡ a
take-append [] b = refl
take-append (c ∷ a) b = ap (λ (r : Bytes). c ∷ r) (take-append a b)

section-append :
    (a b c : Bytes) (j : ℕ)
    → suc j ≡ length a + length b
    → section (a ++ (b ++ c)) (length a) (suc j) ≡ b
section-append a b c j e =
    let len : suc j - length a ≡ length b = omega arith in
    rw (drop-append a (b ++ c), len) (take-append b c)

call_before-append :
    (function : Bytes) (args : List Bytes) (rest : Bytes)
    → call_before function args rest ≡ call function args ++ rest
unfolding call_before
call_before-append function args rest =
    ap (λ (r : Bytes). dollar ∷ brace ∷ b'f' ∷ colon ∷ r)
      (ap (λ (r : Bytes). function ++ r) (arguments-append args)
        ∙ sym (append_assoc function (arguments_text args (close ∷ [])) rest))
  where
    arguments-append :
        (args : List Bytes)
        → arguments_text args (close ∷ rest) ≡ arguments_text args (close ∷ []) ++ rest
    arguments-append [] = refl
    arguments-append (a ∷ args) =
        ap (λ (r : Bytes). colon ∷ r)
          (ap (λ (r : Bytes). a ++ r) (arguments-append args)
            ∙ sym (append_assoc a (arguments_text args (close ∷ [])) rest))

-- A text of ASCII with no `$` is expanded to itself.
pub expand_tuned_builtin-quiet :
    (run : List Bytes → Option Bytes) (s : Bytes) → IsQuiet s → expand_tuned_builtin run s ≡ s
unfolding expand_tuned_builtin
expand_tuned_builtin-quiet run s h = expand-quiet run (dollars s) s h

length-call :
    (function : Bytes) (args : List Bytes)
    → length (call function args) ≡ 4 + length (function ++ arguments_text args (close ∷ []))
unfolding call_before
length-call function args = omega arith

module _ (run : List Bytes → Option Bytes) (n : ℕ) (before function : Bytes) (args : List Bytes)
    (after : Bytes) where
  abbrev whole : Bytes
  whole = before ++ (call function args ++ after)

  abbrev f : Bytes → Bytes
  f = expand run (suc n)

  abbrev result : Bytes
  result = before ++ (exec_tuned_builtin run function args (call function args) ++ after)

  exec-expanded :
      (j : ℕ)
      → suc j ≡ length before + length (call function args)
      → IsPlain function
      → All IsPlain args
      → exec_tuned_builtin run (f function) (map f args) (section whole (length before) (suc j))
        ≡ exec_tuned_builtin run function args (call function args)
  exec-expanded j len p ps =
      rw
        (
          map-id f args (λ a h. expand-quiet run n a (IsPlain-IsQuiet a h)) ps,
          expand-quiet run n function (IsPlain-IsQuiet function p),
          section-append before (call function args) after j len,
        )
        refl

  -- The end of the function, and what is behind it.
  finish_text-call :
      (j : ℕ)
      → suc j ≡ length before + length (call function args)
      → IsPlain function
      → All IsPlain args
      → IsQuiet after
      → finish_text whole (
          expand_loop run f whole after
            (suc j)
            false
            0
            (end_call run f whole j (map f args) (at_name (length before) before function)))
        ≡ result
  unfolding finish_text end_call expand_loop
  finish_text-call j len p ps q =
      let r = exec_tuned_builtin run function args (call function args) in
      ap₂
        (λ (t u : Bytes).
          finish_text whole
            (expand_loop run f whole t (suc j) false 0 (at_init (length before) (before ++ u))))
        (sym (append-nil after)) (exec-expanded j len p ps)
      ∙ ap (finish_text whole)
          (expand_loop-quiet run f whole after [] (suc j) (length before) false (before ++ r) q)
      ∙ append_assoc before r after

  expand-call :
      IsQuiet before
      → escapes false before ≡ false
      → IsPlain function
      → All IsPlain args
      → IsQuiet after
      → expand run (suc (suc n)) whole ≡ result
  unfolding expand
  expand-call q e p ps q' =
      let (j, len, found) =
        expand_loop-function run f whole function args after (length before + 4) (length before)
          before p ps in
      ap (finish_text whole) (
        ap (λ (r : Bytes). expand_loop run f whole (before ++ r) 0 false 0 scanner)
          (sym (call_before-append function args after))
        ∙ expand_loop-quiet run f whole before (call_before function args after) 0 0 false [] q
        ∙ rw e (expand_loop-open)
        ∙ found)
      ∙ finish_text-call j (omega (arith, length-call function args)) p ps q'
    where
      expand_loop-open :
          expand_loop run f whole
            (call_before function args after)
            (0 + length before)
            false
            0
            (at_init 0 before)
          ≡ expand_loop run f whole
              (function ++ arguments_text args (close ∷ after))
              (length before + 4)
              false
              0
              (at_name (length before) before [])
      expand_loop-open =
          unfold expand_loop step step_init byte_at_is call_before nat_eq in
          ap₂
            (λ (j d : ℕ).
              expand_loop run f whole (function ++ arguments_text args (close ∷ after)) j false 0
                (at_name d before []))
            (omega arith) (omega arith)

-- A text with one function in it is expanded to the text with the result of the function in its place, where the function's name and
-- arguments are of ASCII and without `$`, `}`, `:` and backslashes, and the texts round it
-- are of ASCII without `$`, the one before it not ending in a backslash. Where the function fails, its text stays.
pub expand_tuned_builtin-call :
    (run : List Bytes → Option Bytes) (before function : Bytes) (args : List Bytes) (after : Bytes)
    → IsQuiet before
    → escapes false before ≡ false
    → IsPlain function
    → All IsPlain args
    → IsQuiet after
    → expand_tuned_builtin run (before ++ (call function args ++ after))
      ≡ before ++ (exec_tuned_builtin run function args (call function args) ++ after)
expand_tuned_builtin-call run before function args after q e p ps q' =
    let s = before ++ (call function args ++ after) in
    sym (expand-fuel run (suc (suc (dollars s))) s (omega arith))
    ∙ expand-call run (dollars s) before function args after q e p ps q'
