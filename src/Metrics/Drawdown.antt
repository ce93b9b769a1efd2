-- ===== src/Metrics/Drawdown.antt =====
-- The maximum drawdown is the largest fall below a peak.
use smc_ict_engine.Prelude.{
  ◌≡◌, refl, sym, ap, ◌∙◌, inl, inr, ◌⊎◌, Bool-cases, List, [], ◌∷◌, ◌++◌, All, subst,
}
use smc_ict_engine.Decimal.{Decimal, ◌≼◌, whole, dec_max, dec_ltb, ◌⊕◌, ◌⊖◌}
use smc_ict_engine.Decimal.Order.{≼_refl, ≼_trans, dec_max-≼}
use smc_ict_engine.Metrics.{drawdown_from, maximum_drawdown}

-- The highest of a start and a list.
abbrev pub highest_of : Decimal → List Decimal → Decimal
highest_of d [] = d
highest_of d (x ∷ xs) = highest_of (dec_max d x) xs

-- At each moment the fall from the highest total so far, 0 included, to the total; `seen` are the
-- totals before, the last of them `total`.
abbrev pub falls : (seen : List Decimal) (total : Decimal) → List Decimal → List Decimal
falls seen total [] = []
falls seen total (v ∷ vs) =
    (highest_of (whole 0) (seen ++ (total ⊕ v) ∷ []) ⊖ (total ⊕ v))
    ∷ falls (seen ++ (total ⊕ v) ∷ []) (total ⊕ v) vs

abbrev pub OneOf : Decimal → List Decimal → Type 0
OneOf d [] = ⊥
OneOf d (x ∷ xs) = (d ≡ x) ⊎ OneOf d xs

highest_of-snoc :
    (d : Decimal) (xs : List Decimal) (y : Decimal)
    → highest_of d (xs ++ y ∷ []) ≡ dec_max (highest_of d xs) y
highest_of-snoc d [] y = refl
highest_of-snoc d (x ∷ xs) y = highest_of-snoc (dec_max d x) xs y

dec_max-either : (a b : Decimal) → (dec_max a b ≡ a) ⊎ (dec_max a b ≡ b)
unfolding dec_max
dec_max-either a b = elim (Bool-cases (dec_ltb a b)) [
  | inl e ↦ rw e (inr refl)
  | inr e ↦ rw e (inl refl)
]

-- What is a fall from the recorded peak.
abbrev falls_from : (total peak : Decimal) → List Decimal → List Decimal
falls_from total peak [] = []
falls_from total peak (v ∷ vs) =
    (dec_max peak (total ⊕ v) ⊖ (total ⊕ v)) ∷ falls_from (total ⊕ v) (dec_max peak (total ⊕ v)) vs

falls-falls_from :
    (vs seen : List Decimal) (total : Decimal)
    → falls seen total vs ≡ falls_from total (highest_of (whole 0) seen) vs
falls-falls_from [] seen total = refl
falls-falls_from (v ∷ vs) seen total =
    ap (λ p. (p ⊖ (total ⊕ v)) ∷ falls (seen ++ (total ⊕ v) ∷ []) (total ⊕ v) vs)
      (highest_of-snoc (whole 0) seen (total ⊕ v))
    ∙ ap (λ l. (dec_max (highest_of (whole 0) seen) (total ⊕ v) ⊖ (total ⊕ v)) ∷ l)
        (falls-falls_from vs (seen ++ (total ⊕ v) ∷ []) (total ⊕ v)
          ∙ ap (λ p. falls_from (total ⊕ v) p vs) (highest_of-snoc (whole 0) seen (total ⊕ v)))

drawdown_from_lem :
    (total peak drawdown : Decimal) (vs : List Decimal)
    → (drawdown ≼ drawdown_from total peak drawdown vs)
      × (All (λ f. f ≼ drawdown_from total peak drawdown vs) (falls_from total peak vs))
      × ((drawdown_from total peak drawdown vs ≡ drawdown)
          ⊎ OneOf (drawdown_from total peak drawdown vs) (falls_from total peak vs))
unfolding drawdown_from
drawdown_from_lem total peak drawdown [] = (≼_refl drawdown, tt, inl refl)
drawdown_from_lem total peak drawdown (v ∷ vs) =
    let fall = dec_max peak (total ⊕ v) ⊖ (total ⊕ v) in
    let (above, all_above, reached) =
      drawdown_from_lem (total ⊕ v) (dec_max peak (total ⊕ v)) (dec_max drawdown fall) vs in
    let (left, right) = dec_max-≼ drawdown fall in
    (
      ≼_trans drawdown _ _ left above,
      (≼_trans fall _ _ right above, all_above),
      elim reached [
        | inr later ↦ inr (inr later)
        | inl now ↦ elim (dec_max-either drawdown fall) [
          | inl old ↦ inl (now ∙ old)
          | inr new ↦ inr (inl (now ∙ new))
        ]
      ],
    )

-- The maximum drawdown is no less than the fall, at any moment, from the highest total so far to the
-- total of that moment, and it is 0 or one of these falls.
pub maximum_drawdown_lem :
    (values : List Decimal)
    → (All (λ f. f ≼ maximum_drawdown values) (falls [] (whole 0) values))
      × ((maximum_drawdown values ≡ whole 0)
          ⊎ OneOf (maximum_drawdown values) (falls [] (whole 0) values))
unfolding maximum_drawdown
maximum_drawdown_lem values =
    let (_, above, reached) = drawdown_from_lem (whole 0) (whole 0) (whole 0) values in
    subst
      (λ l.
        All (λ f. f ≼ drawdown_from (whole 0) (whole 0) (whole 0) values) l
        × ((drawdown_from (whole 0) (whole 0) (whole 0) values ≡ whole 0)
            ⊎ OneOf (drawdown_from (whole 0) (whole 0) (whole 0) values) l))
      (sym (falls-falls_from values [] (whole 0))) (above, reached)
