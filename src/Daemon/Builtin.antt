-- ===== src/Daemon/Builtin.antt =====
-- pkg/tuned/tuned_parser.go: TuneD's built-in functions in the names of included profiles. A string is
-- the list of its bytes. `run` stands for a command and what it prints, none where it fails.
pub mod Fuel
pub mod Call
use cluster_node_tuning_oper.Base.{
  list_eq, nat_eq, ◌&&◌, ◌+◌, zero, suc, ℕ, List, ◌≡◌, Bool, Option, [], get_elem?, take, utf8,
  ◌++◌, ◌∷◌, drop, if◌then◌else◌, none, some, string_eq, suc, utf8_code, ◌-◌, false, nat_eq, ◌==◌,
  list_eq, ◌&&◌, ◌+◌, not, refl, leb, map,
}

abbrev pub Bytes : Type 0
Bytes = List ℕ

abbrev pub dollar : ℕ
dollar = b'$'

abbrev pub brace : ℕ
brace = b'{'

abbrev pub close : ℕ
close = b'}'

abbrev pub colon : ℕ
colon = b':'

abbrev pub backslash : ℕ
backslash = b'\\'

-- The bytes of `${`.
abbrev pub open_call : Bytes
open_call = dollar ∷ brace ∷ []

module _ (run : List Bytes → Option Bytes) where
  -- An empty command is an error of its own.
  unfoldable pub exec_cmd : List Bytes → Option Bytes
  exec_cmd [] = none
  exec_cmd (c ∷ args) = run (c ∷ args)

  -- The first argument inside a virtual machine, else the second one.
  unfoldable pub virt_check : List Bytes → Bytes → Bytes
  unfolding exec_cmd utf8
  virt_check (a ∷ b ∷ []) on_fail = elim (exec_cmd (utf8 "virt-what" ∷ [])) [
    | none ↦ b
    | some [] ↦ b
    | some (_ ∷ _) ↦ a
  ]
  virt_check _ on_fail = on_fail

  unfoldable pub exec_tuned_builtin : Bytes → List Bytes → Bytes → Bytes
  unfolding exec_cmd virt_check utf8
  exec_tuned_builtin function args on_fail =
      if function == utf8 "exec"
      then elim (exec_cmd args) [ none ↦ on_fail | some out ↦ out ]
      else if function == utf8 "virt_check"
      then virt_check args on_fail
      else on_fail

-- sInit, sFnName and sFnArg
pub data Phase : Type 0 where
  init fn_name fn_arg : Phase

-- The variables of the scanner. A bracket is closed only where one is open, so their number is not
-- negative.
pub record Scanner : Type 0 where
  pub phase : Phase
  pub ret : Bytes
  pub function : Bytes
  pub i_dollar : ℕ
  pub bracket : ℕ
  pub arguments : List Bytes

abbrev pub scanner : Scanner
scanner = record {
  phase = init;
  ret = [];
  function = [];
  i_dollar = 0;
  bracket = 0;
  arguments = [];
}

-- `byteAtIs(i+1+k, b)`, where `rest` are the bytes behind index i.
unfoldable pub byte_at_is : Bytes → ℕ → ℕ → Bool
byte_at_is rest k b = elim (get_elem? rest k) [ none ↦ false | some c ↦ c == b ]

-- `arguments[len(arguments)-1] += text`; there is an argument wherever this is done.
unfoldable pub append_last : List Bytes → Bytes → List Bytes
append_last [] text = []
append_last (a ∷ []) text = (a ++ text) ∷ []
append_last (a ∷ b ∷ args) text = a ∷ append_last (b ∷ args) text

-- `s[start:stop]`
abbrev pub section : Bytes → ℕ → ℕ → Bytes
section s start stop = take (stop - start) (drop start s)

module _ (run : List Bytes → Option Bytes) (expand : Bytes → Bytes) (s : Bytes) where
  -- The end of a function at index i, with the expanded arguments, and `init`.
  unfoldable pub end_call : ℕ → List Bytes → Scanner → Scanner
  unfolding exec_tuned_builtin
  end_call i args st = record {
    phase = init;
    ret =
        st.ret ++ exec_tuned_builtin run (expand st.function) args (section s st.i_dollar (suc i));
    function = [];
    i_dollar = st.i_dollar;
    bracket = 0;
    arguments = [];
  }

  -- One round of the loop at byte c = s[i], with the bytes behind it, and whether a backslash stands
  -- before it. The number is how many more bytes the round takes.
  unfoldable pub step_name : ℕ → Bytes → ℕ → Bool → Scanner → ℕ × Scanner
  unfolding byte_at_is end_call utf8_code
  step_name c rest i esc st =
      if c == dollar && byte_at_is rest 0 brace && not esc
      then (1, record st { bracket = suc st.bracket; function = st.function ++ open_call })
      else if c == close && not esc
      then (if leb 2 st.bracket
          then (0, record st { bracket = st.bracket - 1; function = st.function ++ utf8_code c })
          else (0, end_call i st.arguments st))
      else if c == colon && not esc && st.bracket == 1
      then (0, record st { phase = fn_arg; arguments = st.arguments ++ [] ∷ [] })
      else (0, record st { function = st.function ++ utf8_code c })

  unfoldable pub step_arg : ℕ → Bytes → ℕ → Bool → Scanner → ℕ × Scanner
  unfolding byte_at_is end_call append_last utf8_code
  step_arg c rest i esc st =
      if c == dollar && byte_at_is rest 0 brace && not esc
      then (
        1,
        record st { bracket = suc st.bracket; arguments = append_last st.arguments open_call },
      )
      else if c == colon && not esc && st.bracket == 1
      then (0, record st { arguments = st.arguments ++ [] ∷ [] })
      else if c == close && not esc
      then (if leb 2 st.bracket
          then (
            0,
            record st {
              bracket = st.bracket - 1;
              arguments = append_last st.arguments (utf8_code c);
            },
          )
          else (0, end_call i (map expand st.arguments) st))
      else (0, record st { arguments = append_last st.arguments (utf8_code c) })

  unfoldable pub step_init : ℕ → Bytes → ℕ → Bool → Scanner → ℕ × Scanner
  unfolding byte_at_is utf8_code
  step_init c rest i esc st =
      if c == dollar
        && byte_at_is rest 0 brace
        && byte_at_is rest 1 b'f'
        && byte_at_is rest 2 colon
        && not esc
      then (3, record st { i_dollar = i; bracket = suc st.bracket; phase = fn_name })
      else (0, record st { ret = st.ret ++ utf8_code c })

  unfoldable pub step : Phase → ℕ → Bytes → ℕ → Bool → Scanner → ℕ × Scanner
  unfolding step_init step_name step_arg
  step init = step_init
  step fn_name = step_name
  step fn_arg = step_arg

  -- The loop over the bytes from index i on, of which `skip` are still to be passed over.
  unfoldable pub expand_loop : Bytes → ℕ → Bool → ℕ → Scanner → Scanner
  unfolding step
  expand_loop [] i esc skip st = st
  expand_loop (c ∷ rest) i esc (suc skip) st = expand_loop rest (suc i) (c == backslash) skip st
  expand_loop (c ∷ rest) i esc zero st =
      let (skip, st') = step st.phase c rest i esc st in
      expand_loop rest (suc i) (c == backslash) skip st'

-- What is left of an unterminated function is kept as it is.
unfoldable pub finish_text : Bytes → Scanner → Bytes
finish_text s st = elim st.phase [ init ↦ st.ret | _ ↦ st.ret ++ drop st.i_dollar s ]

-- A name or an argument has fewer `$` than the text round it, so their number bounds the recursion.
unfoldable pub dollars : Bytes → ℕ
dollars [] = 0
dollars (c ∷ s) = (if c == dollar then 1 else 0) + dollars s

unfoldable pub expand : (List Bytes → Option Bytes) → ℕ → Bytes → Bytes
unfolding expand_loop finish_text
expand run zero s = s
expand run (suc fuel) s = finish_text s (expand_loop run (expand run fuel) s s 0 false 0 scanner)

unfoldable pub expand_tuned_builtin : (List Bytes → Option Bytes) → Bytes → Bytes
unfolding expand dollars
expand_tuned_builtin run s = expand run (suc (dollars s)) s
