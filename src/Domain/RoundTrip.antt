-- ===== src/Domain/RoundTrip.antt =====
-- domain/values.py: the text of a decimal is read back to its value.
use native.Mathlib.Nat.{pow-suc}
use Prim.Native.Char.{Char, code}
use smc_ict_engine.Prelude.{
  ℕ, zero, suc, ◌+◌, ◌*◌, ◌/◌, ◌%◌, ◌^◌, ◌≤◌, ◌<◌, ◌≡◌, ◌∙◌, refl, sym, ap, Bool, true, false, not,
  ◌||◌, leb, ltb, ◌==◌, some, List, [], ◌∷◌, ◌++◌, append_assoc, append-nil, if◌then◌else◌, length,
  All, All-append, arith, Bool-cases, inl, inr,
}
use smc_ict_engine.Decimal.{Decimal, ◌≼◌}
use smc_ict_engine.Decimal.Int.{pos, magnitude}
use smc_ict_engine.Domain.Values.{codes}
use smc_ict_engine.Domain.DecimalText.{is_digit, read_number, read_fraction, decimal_of_text}
use smc_ict_engine.Domain.DecimalPrint.{
  char_of, text_of, whole_codes, pointed_codes, strip, number_codes, decimal_codes, decimal_text,
}

abbrev IsDigit : ℕ → Type 0
IsDigit c = is_digit c ≡ true

digit-IsDigit : (d : ℕ) → d < 10 → is_digit (b'0' + d) ≡ true
unfolding is_digit
digit-IsDigit d h = ground arith

read_digit :
    (seen : Bool) (m d : ℕ) (rest : List ℕ)
    → d < 10
    → read_number seen m ((b'0' + d) ∷ rest) ≡ read_number true (10 * m + d) rest
unfolding read_number
read_digit true m d rest h =
    rw (digit-IsDigit d h) (ap (λ n. read_number true (10 * m + n) rest) (omega arith))
read_digit false m d rest h =
    rw (digit-IsDigit d h) (ap (λ n. read_number true (10 * m + n) rest) (omega arith))

read_place :
    (seen : Bool) (m s d : ℕ) (rest : List ℕ)
    → d < 10
    → read_fraction seen m s ((b'0' + d) ∷ rest) ≡ read_fraction true (10 * m + d) (s + 1) rest
unfolding read_fraction
read_place true m s d rest h =
    rw (digit-IsDigit d h) (ap (λ n. read_fraction true (10 * m + n) (s + 1) rest) (omega arith))
read_place false m s d rest h =
    rw (digit-IsDigit d h) (ap (λ n. read_fraction true (10 * m + n) (s + 1) rest) (omega arith))

read_whole :
    (fuel n : ℕ) (rest : List ℕ)
    → n ≤ fuel
    → read_number false 0 (whole_codes fuel n ++ rest) ≡ read_number true n rest
unfolding whole_codes
read_whole zero n rest h =
    read_digit false 0 n rest (omega (arith, h)) ∙ ap (λ k. read_number true k rest) (omega arith)
read_whole (suc fuel) n rest h = elim (Bool-cases (ltb n 10)) [
  | inl small ↦
      rw small
        (read_digit false 0 n rest (ground arith) ∙ ap (λ k. read_number true k rest) (omega arith))
  | inr large ↦ rw large (
      ap (read_number false 0) (append_assoc (whole_codes fuel (n / 10)) _ rest)
      ∙ read_whole fuel (n / 10) ((b'0' + n % 10) ∷ rest) (ground arith)
      ∙ read_digit true (n / 10) (n % 10) rest (omega arith)
      ∙ ap (λ k. read_number true k rest) (omega arith))
]

read_pointed :
    (places n : ℕ) (rest : List ℕ)
    → read_number false 0 (pointed_codes places n ++ rest)
      ≡ read_fraction (not (places == 0)) n places rest
unfolding pointed_codes read_number is_digit
read_pointed zero n rest =
    ap (read_number false 0) (append_assoc (whole_codes n n) (b'.' ∷ []) rest)
    ∙ read_whole n n (b'.' ∷ rest) (omega arith)
read_pointed (suc places) n rest =
    ap (read_number false 0) (append_assoc (pointed_codes places (n / 10)) _ rest)
    ∙ read_pointed places (n / 10) ((b'0' + n % 10) ∷ rest)
    ∙ read_place (not (places == 0)) (n / 10) places (n % 10) rest (omega arith)
    ∙ ap (λ k. read_fraction true k (places + 1) rest) (omega arith)
    ∙ ap (λ k. read_fraction true n k rest) (omega arith)
    ∙ ap (λ b. read_fraction b n (suc places) rest) (ground arith)

-- The digits and the point
abbrev IsPlain : ℕ → Type 0
IsPlain c = (is_digit c || c == b'.') ≡ true

digit-IsPlain : (d : ℕ) → d < 10 → IsPlain (b'0' + d)
digit-IsPlain d h = rw (digit-IsDigit d h) refl

whole_codes-IsPlain : (fuel n : ℕ) → n ≤ fuel → All IsPlain (whole_codes fuel n)
unfolding whole_codes
whole_codes-IsPlain zero n h = (digit-IsPlain n (omega (arith, h)), tt)
whole_codes-IsPlain (suc fuel) n h = elim (Bool-cases (ltb n 10)) [
  | inl small ↦ rw small (digit-IsPlain n (ground arith), tt)
  | inr large ↦ rw large (
      All-append IsPlain (whole_codes fuel (n / 10)) ((b'0' + n % 10) ∷ [])
        (whole_codes-IsPlain fuel (n / 10) (ground arith))
        (digit-IsPlain (n % 10) (omega arith), tt))
]

pointed_codes-IsPlain : (places n : ℕ) → All IsPlain (pointed_codes places n)
unfolding pointed_codes is_digit
pointed_codes-IsPlain zero n =
    All-append IsPlain (whole_codes n n) (b'.' ∷ []) (whole_codes-IsPlain n n (omega arith))
      (refl, tt)
pointed_codes-IsPlain (suc places) n =
    All-append IsPlain (pointed_codes places (n / 10)) ((b'0' + n % 10) ∷ [])
      (pointed_codes-IsPlain places (n / 10)) (digit-IsPlain (n % 10) (omega arith), tt)

-- A branch of `char_of`
pick :
    (c d : ℕ) (a b : Char)
    → code a ≡ d
    → ((c == d) ≡ false → code b ≡ c)
    → code (if c == d then a else b) ≡ c
pick c d a b h k = elim (Bool-cases (c == d)) [
  | inl e ↦ rw e (h ∙ ground arith)
  | inr e ↦ rw e (k e)
]

code-char_of : (c : ℕ) → IsPlain c → code (char_of c) ≡ c
unfolding is_digit
code-char_of c h = pick c b'1' _ _ refl λ e0. pick c b'2' _ _ refl λ e1. pick c b'3' _ _ refl λ e2.
    pick c b'4' _ _ refl λ e3. pick c b'5' _ _ refl λ e4. pick c b'6' _ _ refl λ e5.
      pick c b'7' _ _ refl λ e6. pick c b'8' _ _ refl λ e7.
        pick c b'9' _ _ refl
          λ e8. pick c b'.' _ _ refl λ e9. pick c b'-' _ _ refl λ e10. ground arith

codes-text_of : (cs : List ℕ) → All IsPlain cs → codes (text_of cs) ≡ cs
codes-text_of [] h = refl
codes-text_of (c ∷ cs) h =
    ap (λ d. d ∷ codes (text_of cs)) (code-char_of c h.0) ∙ ap (λ ds. c ∷ ds) (codes-text_of cs h.1)

number_codes-IsPlain : (m places : ℕ) → All IsPlain (number_codes m places)
unfolding number_codes
number_codes-IsPlain m zero = whole_codes-IsPlain m m (omega arith)
number_codes-IsPlain m (suc places) = pointed_codes-IsPlain (suc places) m

has_places : (places : ℕ) → not (suc places == 0) ≡ true
has_places places = ground arith

within : (a b : ℕ) → a ≡ b → a ≤ 64 → leb b 64 ≡ true
within a b same h = ground arith

read_number_codes :
    (m places : ℕ)
    → read_number false 0 (number_codes m places)
      ≡ some (record { mantissa = pos m; scale = places })
unfolding number_codes read_number read_fraction
read_number_codes m zero =
    ap (read_number false 0) (sym (append-nil (whole_codes m m))) ∙ read_whole m m [] (omega arith)
read_number_codes m (suc places) =
    ap (read_number false 0) (sym (append-nil (pointed_codes (suc places) m)))
    ∙ read_pointed (suc places) m []
    ∙ ap (λ b. read_fraction b m (suc places) []) (has_places places)

-- The zeros that are taken off leave the value.
strip_lem : (places m : ℕ) → (strip places m).0 * 10 ^ places ≡ m * 10 ^ (strip places m).1
unfolding strip
strip_lem zero m = refl
strip_lem (suc places) m = elim (Bool-cases (m % 10 == 0)) [
  | inr e ↦ rw e refl
  | inl e ↦
      rw (e, pow-suc)
        (times_ten (strip places (m / 10)).0 (10 ^ places) (m / 10) (10 ^ (strip places (m / 10)).1)
            (strip_lem places (m / 10))
          ∙ ap (λ n. n * 10 ^ (strip places (m / 10)).1) (ground arith))
]
  where
    times_ten : (k p q r : ℕ) → k * p ≡ q * r → k * (p * 10) ≡ 10 * q * r
    times_ten k p q r h = omega (arith, h)

-- A decimal that is not negative is read back from its text with the same value, if the text has no
-- more than the 64 characters that may be read.
pub decimal_text_round :
    (m places : ℕ)
    → length (codes (decimal_text (record { mantissa = pos m; scale = places }))) ≤ 64
    → (r : Decimal) × (decimal_of_text (decimal_text (record { mantissa = pos m; scale = places }))
        ≡ some r)
      × (r ≼ record { mantissa = pos m; scale = places })
      × (record { mantissa = pos m; scale = places } ≼ r)
unfolding decimal_text decimal_codes decimal_of_text
decimal_text_round m places h =
    let kept = strip places (magnitude (pos m)) in
    let same = codes-text_of (number_codes kept.0 kept.1) (number_codes-IsPlain kept.0 kept.1) in
    let short : leb (length (number_codes kept.0 kept.1)) 64 ≡ true =
      within _ _ (ap length same) h in
    (
      record { mantissa = pos kept.0; scale = kept.1 },
      rw (same, short) (read_number_codes kept.0 kept.1),
      omega (arith, strip_lem places (magnitude (pos m))),
      omega (arith, strip_lem places (magnitude (pos m))),
    )
