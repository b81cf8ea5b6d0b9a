-- ===== src/Daemon/Report/Bootcmdline.antt =====
-- pkg/tuned/controller.go: which line GetBootcmdline returns.
use cluster_node_tuning_oper.Base.{
  nat_eq, list_eq, ◌≡◌, refl, Bool, true, false, List, [], ◌∷◌, ◌++◌, none, some, All, utf8, drop,
  length, ◌≢◌, Option-cases, inl, inr, Bool-cases,
}
use cluster_node_tuning_oper.Daemon.Builtin.{Bytes}
use cluster_node_tuning_oper.Daemon.Log.{starts_with}
use cluster_node_tuning_oper.Daemon.Report.{trim_space, unquote, bootcmdline_loop, bootcmdline_key}

-- Whether a line sets the variable.
abbrev pub sets : Bytes → Bool
sets l = starts_with (utf8 bootcmdline_key) (trim_space l)

-- The value that a line sets.
abbrev pub value_of : Bytes → Bytes
value_of l = drop (length (utf8 bootcmdline_key)) (trim_space l)

unset_lines :
    (ls : List Bytes) (response : Bytes)
    → All (λ l. sets l ≡ false) ls
    → bootcmdline_loop ls response ≡ some response
unfolding bootcmdline_loop
unset_lines [] response h = refl
unset_lines (l ∷ ls) response (h, hs) = rw (h, bootcmdline_loop) (unset_lines ls response hs)

-- The last line that sets the variable counts, without its quotes, as in a shell: nothing before it matters. No line
-- before it has a quote alone as its value.
bootcmdline_loop-last :
    (before : List Bytes) (l : Bytes) (after : List Bytes) (response : Bytes)
    → All (λ b. unquote (value_of b) ≢ none) before
    → sets l ≡ true
    → All (λ a. sets a ≡ false) after
    → bootcmdline_loop (before ++ l ∷ after) response ≡ unquote (value_of l)
unfolding bootcmdline_loop
bootcmdline_loop-last [] l after response h s q = elim (Option-cases (unquote (value_of l))) [
  | inl panic ↦ rw (s, bootcmdline_loop) (rw (panic, bootcmdline_loop) refl)
  | inr (v, e) ↦ rw (s, bootcmdline_loop) (rw (e, bootcmdline_loop) (unset_lines after v q))
]
bootcmdline_loop-last (b ∷ before) l after response (h, hs) s q = elim (Bool-cases (sets b)) [
  | inr other ↦ rw (other, bootcmdline_loop) (bootcmdline_loop-last before l after response hs s q)
  | inl set ↦ elim (Option-cases (unquote (value_of b))) [
    | inl panic ↦ absurd (h panic)
    | inr (v, e) ↦
        rw (set, bootcmdline_loop)
          (rw (e, bootcmdline_loop) (bootcmdline_loop-last before l after v hs s q))
  ]
]
