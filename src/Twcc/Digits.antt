-- ===== src/Twcc/Digits.antt =====
-- Lists of symbols as the digits of a number, the first one highest.
use mini_sfu.Base.{
  ℕ, zero, suc, ◌+◌, ◌*◌, ◌/◌, ◌%◌, ◌^◌, ◌<◌, ◌≡◌, refl, ap, sym, ap₂, ◌∙◌, List, [], ◌∷◌, length,
  All, arith,
}
use native.Mathlib.Nat.{
  pow-zero, pow-suc, mod-eq_of_lt, div-one, div-lt_iff_lt-mul, mul-add-div_right, div-eq_of_lt,
  div-div-eq-div-mul, mul-add-mod_self_right,
}

-- the number whose digits are those of `q` and then `xs`
abbrev pub digits_value : ℕ → ℕ → List ℕ → ℕ
digits_value b q [] = q
digits_value b q (x ∷ xs) = digits_value b (q * b + x) xs

-- the `n` lowest digits of a number
abbrev pub digits_of : ℕ → ℕ → ℕ → List ℕ
digits_of b zero v = []
digits_of b (suc n) v = (v / b ^ n % b) ∷ digits_of b n v

module _ (b : ℕ) (base : 0 < b) where
  pow_pos : (n : ℕ) → 0 < b ^ n
  pow_pos zero = omega (arith, pow-zero b)
  pow_pos (suc n) = grind (arith, pow-suc b n, pow_pos n)

  -- What stands above the digits of the list is `q`.
  digits_value-head :
      (q : ℕ) (xs : List ℕ) → All (λ x. x < b) xs → digits_value b q xs / b ^ length xs ≡ q
  digits_value-head q [] h = rw (pow-zero b) (div-one q)
  digits_value-head q (x ∷ xs) h = rw (pow-suc b (length xs)) (
      sym (div-div-eq-div-mul (digits_value b (q * b + x) xs) (b ^ length xs) b)
      ∙ (ap (λ t. t / b) (digits_value-head (q * b + x) xs h.1)
          ∙ (mul-add-div_right base q x ∙ omega (arith, div-eq_of_lt h.0))))

  -- The digits come back, whatever stands before them.
  pub digits_of-value :
      (q : ℕ) (xs : List ℕ)
      → All (λ x. x < b) xs
      → digits_of b (length xs) (digits_value b q xs) ≡ xs
  digits_of-value q [] h = refl
  digits_of-value q (x ∷ xs) h =
      ap₂ ◌∷◌
        (ap (λ t. t % b) (digits_value-head (q * b + x) xs h.1)
          ∙ (mul-add-mod_self_right q b x ∙ mod-eq_of_lt h.0))
        (digits_of-value (q * b + x) xs h.1)

  -- The digits of `q` stand above.
  pub digits_value-above :
      (q : ℕ) (xs : List ℕ) → digits_value b q xs ≡ q * b ^ length xs + digits_value b 0 xs
  digits_value-above q [] = rw (pow-zero b) (omega arith)
  digits_value-above q (x ∷ xs) = omega (
    arith,
    digits_value-above (q * b + x) xs,
    digits_value-above (0 * b + x) xs,
    ap (λ (t : ℕ). q * t) (pow-suc b (length xs)),
  )

  pub digits_value-lt : (xs : List ℕ) → All (λ x. x < b) xs → digits_value b 0 xs < b ^ length xs
  digits_value-lt xs h = omega (
    arith,
    (div-lt_iff_lt-mul {x = digits_value b 0 xs} {y = 1} (pow_pos (length xs))).0
        (rw (digits_value-head 0 xs h) (omega arith)),
  )
