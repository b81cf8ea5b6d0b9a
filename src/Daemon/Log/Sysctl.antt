-- ===== src/Daemon/Log/Sysctl.antt =====
-- pkg/tuned/controller.go: overridenSysctl on the lines that TuneD logs.
use cluster_node_tuning_oper.Base.{
  ◌+◌, ◌<◌, ◌≤◌, ◌↔◌, ℕ, suc, nat_eq, list_eq, ◌==◌, ◌≡◌, refl, arith, false, List, [], ◌∷◌, ◌++◌,
  none, some, if◌then◌else◌, All, drop, length, utf8, ◌↔◌, ◌≤◌, ◌∙◌, ap,
}
use cluster_node_tuning_oper.Daemon.Builtin.{Bytes}
use cluster_node_tuning_oper.Daemon.Includes.{split}
use cluster_node_tuning_oper.Daemon.Log.{index, quote, sysctl_key, sysctl_of, overriden_sysctl}

-- A text with no quote.
abbrev pub IsUnquoted : Bytes → Type 0
IsUnquoted s = All (λ c. (c == quote) ≡ false) s

split-unquoted : (p s : Bytes) → IsUnquoted p → split quote (p ++ quote ∷ s) ≡ p ∷ split quote s
unfolding split
split-unquoted [] s h = ground arith
split-unquoted (c ∷ p) s (h, hs) = rw (split-unquoted p s hs) (ground arith)

drop-append : (a b : Bytes) → drop (length a) (a ++ b) ≡ b
drop-append [] b = refl
drop-append (c ∷ a) b = drop-append a b

-- `name' from 'old' to 'new'`, between other texts.
abbrev pub change_text : Bytes → Bytes → Bytes → Bytes → Bytes → Bytes → Bytes
change_text name from old to new rest =
    name ++ quote ∷ (from ++ quote ∷ (old ++ quote ∷ (to ++ quote ∷ (new ++ quote ∷ rest))))

-- The quotes in a text.
unfoldable pub quotes : Bytes → ℕ
quotes [] = 0
quotes (c ∷ s) = (if c == quote then 1 else 0) + quotes s

split-length : (s : Bytes) → length (split quote s) ≡ suc (quotes s)
unfolding split quotes
split-length [] = omega arith
split-length (c ∷ s) = split-step (split quote s) (split-length s)
  where
    split-step :
        (rest : List Bytes)
        → length rest ≡ suc (quotes s)
        → length (
            if c == quote
            then [] ∷ rest
            else elim rest [ [] ↦ (c ∷ []) ∷ [] | w ∷ ws ↦ (c ∷ w) ∷ ws ])
          ≡ suc ((if c == quote then 1 else 0) + quotes s)
    split-step [] h = absurd (omega arith)
    split-step (w ∷ ws) h = ground arith

-- Five parts are read.
sysctl_of-none : (slice : List Bytes) → (sysctl_of slice ≡ none) ↔ (length slice ≤ 4)
unfolding sysctl_of
sysctl_of-none [] = ground arith
sysctl_of-none (a ∷ []) = ground arith
sysctl_of-none (a ∷ b ∷ []) = ground arith
sysctl_of-none (a ∷ b ∷ c ∷ []) = ground arith
sysctl_of-none (a ∷ b ∷ c ∷ d ∷ []) = ground arith
sysctl_of-none (a ∷ b ∷ c ∷ d ∷ e ∷ rest) = ground arith

found :
    (line : Bytes) (i : ℕ)
    → index (utf8 sysctl_key) line ≡ some i
    → overriden_sysctl line ≡ sysctl_of (split quote (drop (i + length (utf8 sysctl_key)) line))
unfolding overriden_sysctl
found line i h = rw (h, overriden_sysctl) refl

sysctl_of-five :
    (a b c d e : Bytes) (rest : List Bytes)
    → sysctl_of (a ∷ b ∷ c ∷ d ∷ e ∷ rest) ≡ some (if c == e then [] else a)
unfolding sysctl_of
sysctl_of-five a b c d e rest = ground arith

-- On a line with the key, overridenSysctl indexes past the end of its slice exactly if fewer than four quotes
-- follow the key.
pub overriden_sysctl-panics :
    (line : Bytes) (i : ℕ)
    → index (utf8 sysctl_key) line ≡ some i
    → (overriden_sysctl line ≡ none) ↔ (quotes (drop (i + length (utf8 sysctl_key)) line) < 4)
overriden_sysctl-panics line i h =
    let rest = drop (i + length (utf8 sysctl_key)) line in
    let (a, b) = sysctl_of-none (split quote rest) in
    rw (found line i h)
      (λ e. omega (arith, a e, split-length rest), λ lt. b (omega (arith, split-length rest)))

-- Where the parameter, its old and its new value, and the texts between them stand in quotes behind the key, and have no
-- quotes themselves, overridenSysctl returns the parameter if the values differ, and no text if they are the same.
pub overriden_sysctl-change :
    (line : Bytes) (i : ℕ) (name from old to new rest : Bytes)
    → index (utf8 sysctl_key) line ≡ some i
    → drop (i + length (utf8 sysctl_key)) line ≡ change_text name from old to new rest
    → IsUnquoted name
    → IsUnquoted from
    → IsUnquoted old
    → IsUnquoted to
    → IsUnquoted new
    → overriden_sysctl line ≡ some (if old == new then [] else name)
overriden_sysctl-change line i name from old to new rest h e p1 p2 p3 p4 p5 =
    let parts : split quote (change_text name from old to new rest)
        ≡ name ∷ from ∷ old ∷ to ∷ new ∷ split quote rest =
      split-unquoted name (from ++ quote ∷ (old ++ quote ∷ (to ++ quote ∷ (new ++ quote ∷ rest))))
        p1
      ∙ ap (λ (l : List Bytes). name ∷ l)
          (split-unquoted from (old ++ quote ∷ (to ++ quote ∷ (new ++ quote ∷ rest))) p2
            ∙ ap (λ (l : List Bytes). from ∷ l)
                (split-unquoted old (to ++ quote ∷ (new ++ quote ∷ rest)) p3
                  ∙ ap (λ (l : List Bytes). old ∷ l)
                      (split-unquoted to (new ++ quote ∷ rest) p4
                        ∙ ap (λ (l : List Bytes). to ∷ l) (split-unquoted new rest p5)))) in
    found line i h
    ∙ ap sysctl_of (ap (split quote) e ∙ parts)
    ∙ sysctl_of-five name from old to new (split quote rest)
