-- ===== src/Decimal/Order.antt =====
-- The order of decimals: total and transitive, and what `max` and `min` give.
use native.Mathlib.Nat.{pow-suc, mul-le-mul_right, le_of_mul-le-mul_right}
use smc_ict_engine.Prelude.{
  ℕ, zero, suc, ◌+◌, ◌*◌, ◌^◌, ◌≤◌, ◌<◌, ◌≡◌, ◌⊎◌, refl, inl, inr, true, false, arith, Bool-cases,
}
use smc_ict_engine.Decimal.Int.{pos_part, neg_part}
use smc_ict_engine.Decimal.{Decimal, ◌≼◌, dec_leb, dec_ltb, dec_max, dec_min}

pub ≼_total : (a b : Decimal) → (a ≼ b) ⊎ (b ≼ a)
≼_total a b = omega arith

pub ≼_refl : (a : Decimal) → a ≼ a
≼_refl a = omega arith

ten_pow_pos : (n : ℕ) → 0 < 10 ^ n
ten_pow_pos zero = omega arith
ten_pow_pos (suc n) = rw pow-suc (omega (arith, ten_pow_pos n))

-- Fractions with positive denominators A, B, C, each a difference of two numbers.
cross_trans :
    (pa na A pb nb B pc nc C : ℕ)
    → 0 < B
    → pa * B + nb * A ≤ pb * A + na * B
    → pb * C + nc * B ≤ pc * B + nb * C
    → pa * C + nc * A ≤ pc * A + na * C
cross_trans pa na A pb nb B pc nc C positive h k =
    le_of_mul-le-mul_right {k = B} (omega (arith, mul-le-mul_right C h, mul-le-mul_right A k))
      positive

pub ≼_trans : (a b c : Decimal) → a ≼ b → b ≼ c → a ≼ c
≼_trans a b c h k =
    cross_trans (pos_part a.mantissa) (neg_part a.mantissa) (10 ^ a.scale) (pos_part b.mantissa)
      (neg_part b.mantissa) (10 ^ b.scale) (pos_part c.mantissa) (neg_part c.mantissa)
      (10 ^ c.scale) (ten_pow_pos b.scale) h k

pub dec_leb→≼ : (a b : Decimal) → dec_leb a b ≡ true → a ≼ b
unfolding dec_leb
dec_leb→≼ a b h = ground arith

pub ≼→dec_leb : (a b : Decimal) → a ≼ b → dec_leb a b ≡ true
unfolding dec_leb
≼→dec_leb a b h = ground arith

-- What is not below is above.
pub dec_ltb_false→≼ : (a b : Decimal) → dec_ltb a b ≡ false → b ≼ a
unfolding dec_ltb
dec_ltb_false→≼ a b h = ground arith

pub dec_ltb→≼ : (a b : Decimal) → dec_ltb a b ≡ true → a ≼ b
unfolding dec_ltb
dec_ltb→≼ a b h = ground arith

pub dec_max-≼ : (a b : Decimal) → (a ≼ dec_max a b) × (b ≼ dec_max a b)
unfolding dec_max
dec_max-≼ a b = elim (Bool-cases (dec_ltb a b)) [
  | inl e ↦ rw e (dec_ltb→≼ a b e, ≼_refl b)
  | inr e ↦ rw e (≼_refl a, dec_ltb_false→≼ a b e)
]

pub dec_min-≼ : (a b : Decimal) → (dec_min a b ≼ a) × (dec_min a b ≼ b)
unfolding dec_min
dec_min-≼ a b = elim (Bool-cases (dec_ltb b a)) [
  | inl e ↦ rw e (dec_ltb→≼ b a e, ≼_refl b)
  | inr e ↦ rw e (≼_refl a, dec_ltb_false→≼ b a e)
]

-- Below what is below
pub dec_ltb-trans_left : (a b c : Decimal) → a ≼ b → dec_ltb b c ≡ true → dec_ltb a c ≡ true
unfolding dec_ltb
dec_ltb-trans_left a b c h k = elim (Bool-cases (dec_leb c a)) [
  | inl e ↦ absurd (ne (rw (≼→dec_leb c b (≼_trans c a b (dec_leb→≼ c a e) h)) at k))
  | inr e ↦ rw e refl
]
  where
    ne : false ≡ true → ⊥
    ne x = cc

pub dec_ltb-trans_right : (a b c : Decimal) → b ≼ c → dec_ltb a b ≡ true → dec_ltb a c ≡ true
unfolding dec_ltb
dec_ltb-trans_right a b c h k = elim (Bool-cases (dec_leb c a)) [
  | inl e ↦ absurd (ne (rw (≼→dec_leb b a (≼_trans b c a h (dec_leb→≼ c a e))) at k))
  | inr e ↦ rw e refl
]
  where
    ne : false ≡ true → ⊥
    ne x = cc
