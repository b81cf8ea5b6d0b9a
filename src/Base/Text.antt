-- ===== src/Base/Text.antt =====
-- Go's `<` on strings, and the bytes of a string. Go compares bytes; on valid UTF-8 that is the order
-- of the code points.
use Prim.Native.Char.{code}
use Prim.Native.Nat.{ℕ, ◌+◌, ◌/◌, ◌%◌}
use Prim.Native.String.{String}
use mathlib.Core.List.{List, [], ◌∷◌, ◌++◌}
use mathlib.Core.Path.{◌≡◌, refl}
use mathlib.Core.Bool.{Bool, true, false}
use native.Mathlib.Omega.{arith}
use text.Mathlib.TextEquality.{Char-path}
use cluster_node_tuning_oper.Base.Tests.{ltb, if◌then◌else◌}

unfoldable pub lt_str : String → String → Bool
lt_str String.[] String.[] = false
lt_str String.[] (String.◌∷◌ d t) = true
lt_str (String.◌∷◌ c s) String.[] = false
lt_str (String.◌∷◌ c s) (String.◌∷◌ d t) =
    if ltb (code c) (code d) then true else if ltb (code d) (code c) then false else lt_str s t

pub lt_str_trans : (s t u : String) → lt_str s t ≡ true → lt_str t u ≡ true → lt_str s u ≡ true
unfolding lt_str
lt_str_trans String.[] String.[] u h k = cc
lt_str_trans String.[] (String.◌∷◌ d t) String.[] h k = cc
lt_str_trans String.[] (String.◌∷◌ d t) (String.◌∷◌ e u) h k = refl
lt_str_trans (String.◌∷◌ c s) String.[] u h k = cc
lt_str_trans (String.◌∷◌ c s) (String.◌∷◌ d t) String.[] h k = cc
lt_str_trans (String.◌∷◌ c s) (String.◌∷◌ d t) (String.◌∷◌ e u) h k =
    ground (arith, lt_str_trans s t u)

pub lt_str_irrefl : (s : String) → lt_str s s ≡ false
unfolding lt_str
lt_str_irrefl String.[] = refl
lt_str_irrefl (String.◌∷◌ c s) = ground (arith, lt_str_irrefl s)

-- Two different strings are ordered one way or the other.
pub lt_str_total : (s t : String) → lt_str s t ≡ false → lt_str t s ≡ false → s ≡ t
unfolding lt_str
lt_str_total String.[] String.[] h k = refl
lt_str_total String.[] (String.◌∷◌ d t) h k = cc
lt_str_total (String.◌∷◌ c s) String.[] h k = cc
lt_str_total (String.◌∷◌ c s) (String.◌∷◌ d t) h k = ground (arith, lt_str_total s t, Char-path c d)

-- The bytes of a code point in UTF-8; Go's `string(c)` of a byte or a rune.
unfoldable pub utf8_code : ℕ → List ℕ
utf8_code c =
    if ltb c 128
    then c ∷ []
    else if ltb c 2048
    then (192 + c / 64) ∷ (128 + c % 64) ∷ []
    else if ltb c 65536
    then (224 + c / 4096) ∷ (128 + (c / 64) % 64) ∷ (128 + c % 64) ∷ []
    else (240 + c / 262144) ∷ (128 + (c / 4096) % 64) ∷ (128 + (c / 64) % 64) ∷ (128 + c % 64) ∷ []

-- The bytes of a text.
unfoldable pub utf8 : String → List ℕ
unfolding utf8_code
utf8 String.[] = []
utf8 (String.◌∷◌ c s) = utf8_code (code c) ++ utf8 s
