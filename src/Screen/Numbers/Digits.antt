-- ===== src/Screen/Numbers/Digits.antt =====
-- The digits of a number in a base.
use native.Mathlib.Nat.{
  mod-add-div', mod-lt, div-lt_iff_lt-mul, mul-le-mul_left, pow-suc, pow-zero, lt_of_lt_of_le,
}
use fox_os.Base.{
  ℕ, zero, suc, ◌+◌, ◌*◌, ◌/◌, ◌^◌, ◌<◌, ◌≤◌, ◌≡◌, List, [], ◌∷◌, All, arith, length, ltb, le→ltb,
  Bool-cases, inl, inr, ltb_false→le,
}
use fox_os.Screen.Numbers.{digits_from, loop_digits}

-- The number that digits stand for, the last digit first.
abbrev pub value : ℕ → List ℕ → ℕ
value b [] = 0
value b (d ∷ ds) = d + value b ds * b

module _ (b : ℕ) (two : 2 ≤ b) where
  -- Halving or more in each round.
  div-below : (n m : ℕ) → n < m * 2 → n / b < m
  div-below n m l =
      (div-lt_iff_lt-mul {k = b} {x = n} {y = m} (omega arith)).1
        (lt_of_lt_of_le l (mul-le-mul_left m two))

  pub value-digits_from : (k n : ℕ) → n < 2 ^ k → value b (digits_from b k n) ≡ n
  unfolding digits_from
  value-digits_from zero n l = omega arith
  value-digits_from (suc k) n l = elim (Bool-cases (ltb 0 n)) [
    | inl e ↦
        rw (e, value-digits_from k (n / b) (div-below n (2 ^ k) (rw (pow-suc 2 k) at l)))
          (mod-add-div' n b)
    | inr e ↦ rw e (omega (arith, ltb_false→le 0 n e))
  ]

  pub value-loop_digits : (n : ℕ) → n < 2 ^ 64 → value b (loop_digits b n) ≡ n
  unfolding loop_digits
  value-loop_digits n l =
      rw (value-digits_from 64 (n / b) (div-below n (2 ^ 64) (omega arith))) (mod-add-div' n b)

  -- No more digits than the power of the base needs.
  pub length-digits_from : (k m n : ℕ) → n < b ^ m → length (digits_from b k n) ≤ m
  unfolding digits_from
  length-digits_from zero m n l = omega arith
  length-digits_from (suc k) zero n l = rw (le→ltb 0 n (omega (arith, pow-zero b))) (omega arith)
  length-digits_from (suc k) (suc m) n l = elim (Bool-cases (ltb 0 n)) [
    | inl e ↦ rw e (
        omega (
          arith,
          length-digits_from k m (n / b) (
              (div-lt_iff_lt-mul {k = b} {x = n} {y = b ^ m} (omega arith)).1
                (rw (pow-suc b m) at l)),
        ))
    | inr e ↦ rw e (omega arith)
  ]

  pub All-digits_from : (k n : ℕ) → All (λ d. d < b) (digits_from b k n)
  unfolding digits_from
  All-digits_from zero n = tt
  All-digits_from (suc k) n = elim (Bool-cases (ltb 0 n)) [
    | inl e ↦ rw e (mod-lt n (omega arith), All-digits_from k (n / b))
    | inr e ↦ rw e tt
  ]

  pub length-loop_digits : (m n : ℕ) → n < b ^ m * b → length (loop_digits b n) ≤ suc m
  unfolding loop_digits
  length-loop_digits m n l = omega (
    arith,
    length-digits_from 64 m (n / b)
        ((div-lt_iff_lt-mul {k = b} {x = n} {y = b ^ m} (omega arith)).1 l),
  )

  pub All-loop_digits : (n : ℕ) → All (λ d. d < b) (loop_digits b n)
  unfolding loop_digits
  All-loop_digits n = (mod-lt n (omega arith), All-digits_from 64 (n / b))
