-- ===== src/Daemon/Builtin/Fuel.antt =====
-- pkg/tuned/tuned_parser.go: the calls that expandTuneDBuiltin makes of itself, on the names and the
-- arguments of functions. Each of these texts has fewer `$` than the whole.
use cluster_node_tuning_oper.Base.{
  nat_eq, ℕ, zero, suc, ◌+◌, ◌≡◌, refl, arith, List, utf8_code, ◌++◌, Option, ◌∷◌, ◌≤◌, Bool, [],
  ◌<◌, map, ap, ap₂, ◌==◌, false, ◌∙◌,
}
use cluster_node_tuning_oper.Daemon.Builtin.{
  dollars, Scanner, expand_loop, step, step_init, step_name, step_arg, end_call, append_last, Bytes,
  init, fn_name, fn_arg, expand, expand_tuned_builtin, finish_text, scanner, Phase, open_call,
  backslash,
}

dollars-append : (s t : Bytes) → dollars (s ++ t) ≡ dollars s + dollars t
unfolding dollars
dollars-append [] t = omega arith
dollars-append (c ∷ s) t = omega (arith, dollars-append s t)

dollars-utf8_code : (c : ℕ) → dollars (utf8_code c) ≡ dollars (c ∷ [])
unfolding dollars utf8_code
dollars-utf8_code c = ground arith

abbrev dollars_all : List Bytes → ℕ
dollars_all [] = 0
dollars_all (a ∷ args) = dollars a + dollars_all args

dollars_all-append : (a b : List Bytes) → dollars_all (a ++ b) ≡ dollars_all a + dollars_all b
dollars_all-append [] b = omega arith
dollars_all-append (t ∷ a) b = omega (arith, dollars_all-append a b)

dollars_all-append_last :
    (args : List Bytes) (t : Bytes)
    → dollars_all (append_last args t) ≤ dollars_all args + dollars t
unfolding append_last
dollars_all-append_last [] t = omega arith
dollars_all-append_last (a ∷ []) t = omega (arith, dollars-append a t)
dollars_all-append_last (a ∷ b ∷ args) t = omega (arith, dollars_all-append_last (b ∷ args) t)

abbrev inside : Phase → ℕ
inside init = 0
inside fn_name = 1
inside fn_arg = 1

abbrev weight : Scanner → ℕ
weight st = dollars st.function + dollars_all st.arguments

module _ (run : List Bytes → Option Bytes) (f g : Bytes → Bytes) (n : ℕ) where
  abbrev Agree : Type 0
  Agree = (t : Bytes) → dollars t < n → f t ≡ g t

  map_agree : Agree → (args : List Bytes) → dollars_all args < n → map f args ≡ map g args
  map_agree h [] l = refl
  map_agree h (a ∷ args) l = ap₂ ◌∷◌ (h a (omega arith)) (map_agree h args (omega arith))

  -- Inside a function one `$` has gone by.
  abbrev Fits : Scanner → Bytes → Type 0
  Fits st rest = weight st + dollars rest + inside st.phase ≤ n

  module _ (s : Bytes) (h : Agree) where
    end_call_agree :
        (args : List Bytes) (i : ℕ) (st : Scanner)
        → dollars st.function < n
        → end_call run f s i args st ≡ end_call run g s i args st
    unfolding end_call
    end_call_agree args i st l = rw (h st.function l) refl

    module _ (c : ℕ) (rest : Bytes) (i : ℕ) (esc : Bool) where
      step_name_agree :
          (st : Scanner)
          → dollars st.function < n
          → step_name run f s c rest i esc st ≡ step_name run g s c rest i esc st
      unfolding step_name
      step_name_agree st l = rw (end_call_agree st.arguments i st l) refl

      step_arg_agree :
          (st : Scanner)
          → dollars st.function + dollars_all st.arguments < n
          → step_arg run f s c rest i esc st ≡ step_arg run g s c rest i esc st
      unfolding step_arg
      step_arg_agree st l =
          rw
            (
              map_agree h st.arguments (omega arith),
              end_call_agree (map g st.arguments) i st (omega arith),
            )
            refl

      step_agree :
          (p : Phase) (st : Scanner)
          → st.phase ≡ p
          → Fits st (c ∷ rest)
          → step run f s p c rest i esc st ≡ step run g s p c rest i esc st
      unfolding step dollars
      step_agree init st e l = refl
      step_agree fn_name st e l = step_name_agree st (omega (arith, ap inside e))
      step_agree fn_arg st e l = step_arg_agree st (omega (arith, ap inside e))

      Fits-step_init :
          (st : Scanner)
          → st.phase ≡ init
          → Fits st (c ∷ rest)
          → Fits (step_init run g s c rest i esc st).1 rest
      unfolding step_init dollars
      Fits-step_init st p l = ground arith

      Fits-step_name :
          (st : Scanner)
          → st.phase ≡ fn_name
          → Fits st (c ∷ rest)
          → Fits (step_name run g s c rest i esc st).1 rest
      unfolding step_name end_call dollars
      Fits-step_name st p l = ground (
        arith,
        dollars-append st.function open_call,
        dollars-append st.function (utf8_code c),
        dollars-utf8_code c,
        dollars_all-append st.arguments ([] ∷ []),
      )

      Fits-step_arg :
          (st : Scanner)
          → st.phase ≡ fn_arg
          → Fits st (c ∷ rest)
          → Fits (step_arg run g s c rest i esc st).1 rest
      unfolding step_arg end_call dollars
      Fits-step_arg st p l = ground (
        arith,
        dollars_all-append_last st.arguments open_call,
        dollars_all-append_last st.arguments (utf8_code c),
        dollars-utf8_code c,
        dollars_all-append st.arguments ([] ∷ []),
      )

      Fits-step :
          (p : Phase) (st : Scanner)
          → st.phase ≡ p
          → Fits st (c ∷ rest)
          → Fits (step run g s p c rest i esc st).1 rest
      unfolding step
      Fits-step init = Fits-step_init
      Fits-step fn_name = Fits-step_name
      Fits-step fn_arg = Fits-step_arg

    scan_agree :
        (rest : Bytes) (i : ℕ) (esc : Bool) (skip : ℕ) (st : Scanner)
        → Fits st rest
        → expand_loop run f s rest i esc skip st ≡ expand_loop run g s rest i esc skip st
    unfolding expand_loop dollars
    scan_agree [] i esc skip st l = refl
    scan_agree (c ∷ rest) i esc (suc skip) st l =
        scan_agree rest (suc i) (c == backslash) skip st (omega arith)
    scan_agree (c ∷ rest) i esc zero st l =
        let (skip, st') = step run g s st.phase c rest i esc st in
        let e = step_agree c rest i esc st.phase st refl l in
        ap (λ (r : ℕ × Scanner). expand_loop run f s rest (suc i) (c == backslash) r.0 r.1) e
        ∙ scan_agree rest (suc i) (c == backslash) skip st'
            (Fits-step c rest i esc st.phase st refl l)

expand_agree :
    (run : List Bytes → Option Bytes) (n m : ℕ) (s : Bytes)
    → dollars s < n
    → dollars s < m
    → expand run n s ≡ expand run m s
unfolding expand
expand_agree run zero m s l k = absurd (omega arith)
expand_agree run (suc n) zero s l k = absurd (omega arith)
expand_agree run (suc n) (suc m) s l k = ap (finish_text s) (
    scan_agree run (expand run n) (expand run m) (dollars s) s
      (λ t h. expand_agree run n m t (omega arith) (omega arith)) s 0 false 0 scanner
      (unfold dollars in omega arith))

-- The expansion is done with the fuel given: any fuel above the number of `$` in the text gives the
-- same.
pub expand-fuel :
    (run : List Bytes → Option Bytes) (n : ℕ) (s : Bytes)
    → dollars s < n
    → expand run n s ≡ expand_tuned_builtin run s
unfolding expand_tuned_builtin
expand-fuel run n s l = expand_agree run n (suc (dollars s)) s l (omega arith)
