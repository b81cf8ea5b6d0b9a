-- ===== src/Performance/Validation/Identifiers.antt =====
-- pkg/apis/performanceprofile/v2/performanceprofile_validation.go: what isValid16bitsHexID accepts.
use Prim.Native.Char.{Char, code}
use cluster_node_tuning_oper.Base.{
  String, ℕ, suc, ◌+◌, ◌*◌, ◌-◌, ◌≤◌, ◌<◌, ◌^◌, true, ◌==◌, ◌&&◌, string_eq, nat_eq, if◌then◌else◌,
  ◌≡◌, refl, arith, ltb, and_true,
}
use cluster_node_tuning_oper.Performance.Validation.Devices.{
  is_hex_digit, all_hex, text_length, matches_hex, is_valid_16bits_hex_id,
}

-- The value of a hexadecimal digit, and of the digits behind those that make up `acc`.
abbrev pub digit_value : Char → ℕ
digit_value c =
    if ltb (code c) 58 then code c - 48 else if ltb (code c) 71 then code c - 55 else code c - 87

unfoldable pub hex_value : ℕ → String → ℕ
hex_value acc String.[] = acc
hex_value acc (String.◌∷◌ c s) = hex_value (acc * 16 + digit_value c) s

digit_value_bound : (c : Char) → is_hex_digit c ≡ true → digit_value c < 16
digit_value_bound c h = ground (arith, h)

-- `b` times sixteen to the length of the text.
shifted : ℕ → String → ℕ
shifted b String.[] = b
shifted b (String.◌∷◌ c s) = shifted (b * 16) s

hex_value-shifted :
    (acc b : ℕ) (s : String) → acc < b → all_hex s ≡ true → hex_value acc s < shifted b s
unfolding hex_value all_hex shifted
hex_value-shifted acc b String.[] h k = h
hex_value-shifted acc b (String.◌∷◌ c s) h k =
    let (d, ds) = and_true (is_hex_digit c) (all_hex s) k in
    hex_value-shifted (acc * 16 + digit_value c) (b * 16) s
      (omega (arith, h, digit_value_bound c d)) ds

shifted-short : (s : String) → text_length s ≤ 4 → shifted 1 s ≤ 65536
unfolding shifted text_length
shifted-short String.[] h = omega arith
shifted-short (String.◌∷◌ a String.[]) h = omega arith
shifted-short (String.◌∷◌ a (String.◌∷◌ b String.[])) h = omega arith
shifted-short (String.◌∷◌ a (String.◌∷◌ b (String.◌∷◌ c String.[]))) h = omega arith
shifted-short (String.◌∷◌ a (String.◌∷◌ b (String.◌∷◌ c (String.◌∷◌ d String.[])))) h = omega arith
shifted-short (String.◌∷◌ a (String.◌∷◌ b (String.◌∷◌ c (String.◌∷◌ d (String.◌∷◌ e s))))) h =
    absurd (omega (arith, h))

-- The text 0x, with some digits behind it.
abbrev pub Prefixed : String → String → Type 0
Prefixed v digits =
    (a : Char) × ((b : Char) × ((v ≡ String.◌∷◌ a (String.◌∷◌ b digits))
        × ((code a ≡ 48) × (code b ≡ 120))))

-- Every identifier that is accepted is the text 0x with one to four hexadecimal digits behind it, and
-- its value fits 16 bits.
pub is_valid_16bits_hex_id_bound :
    (v : String)
    → is_valid_16bits_hex_id v ≡ true
    → (digits : String) × (Prefixed v digits
        × ((all_hex digits ≡ true)
            × ((1 ≤ text_length digits)
                × ((text_length digits ≤ 4) × (hex_value 0 digits < 2 ^ 16)))))
unfolding is_valid_16bits_hex_id matches_hex text_length
is_valid_16bits_hex_id_bound String.[] h = absurd (cc)
is_valid_16bits_hex_id_bound (String.◌∷◌ a String.[]) h = absurd (cc)
is_valid_16bits_hex_id_bound (String.◌∷◌ a (String.◌∷◌ b String.[])) h = absurd (cc)
is_valid_16bits_hex_id_bound (String.◌∷◌ a (String.◌∷◌ b (String.◌∷◌ c s))) h =
    let (m, short) =
      and_true ((code a == 48) && ((code b == 120) && (is_hex_digit c && all_hex s)))
        (ltb (suc (suc (suc (text_length s)))) 7) h in
    let (ea, m1) = and_true (code a == 48) ((code b == 120) && (is_hex_digit c && all_hex s)) m in
    let (eb, hex) = and_true (code b == 120) (is_hex_digit c && all_hex s) m1 in
    let digits = String.◌∷◌ c s in
    let few : text_length digits ≤ 4 = ground (arith, short) in
    let bound = hex_value-shifted 0 1 digits (omega arith) hex in
    (
      digits,
      (
        (a, (b, (refl, (ground (arith, ea), ground (arith, eb))))),
        (hex, (omega arith, (few, omega (arith, bound, shifted-short digits few)))),
      ),
    )
