-- ===== src/Python/Decimal.antt =====
-- The digits of `str(n)`: below the colon, and different for different numbers.
use sip_protocol.Prelude.{
  ℕ, zero, suc, ◌+◌, ◌-◌, ◌*◌, ◌/◌, ◌%◌, ◌<◌, ◌≡◌, ap, sym, ◌∙◌, List, [], ◌∷◌, ◌==◌, Bool-cases,
  inl, inr, All, arith, ==_eq,
}
use sip_protocol.Python.Json.{decimal_loop, decimal}

-- the number whose digits follow those of another one
abbrev value : ℕ → List ℕ → ℕ
value n [] = n
value n (c ∷ cs) = value (10 * n + (c - 48)) cs

decimal_loop-below :
    (fuel n : ℕ) (acc : List ℕ)
    → All (λ c. c < 58) acc
    → All (λ c. c < 58) (decimal_loop fuel n acc)
unfolding decimal_loop
decimal_loop-below zero n acc h = h
decimal_loop-below (suc fuel) n acc h = elim (Bool-cases (n / 10 == 0)) [
  | inl e ↦ rw (decimal_loop, e) (omega arith, h)
  | inr e ↦
      rw (decimal_loop, e) (decimal_loop-below fuel (n / 10) ((48 + n % 10) ∷ acc) (omega arith, h))
]

-- The digits of a number stand before the colon in ASCII.
pub decimal-below : (n : ℕ) → All (λ c. c < 58) (decimal n)
unfolding decimal
decimal-below n = decimal_loop-below (suc n) n [] tt

value-decimal_loop :
    (fuel n : ℕ) (acc : List ℕ) → n < fuel → value 0 (decimal_loop fuel n acc) ≡ value n acc
unfolding decimal_loop
value-decimal_loop zero n acc h = absurd (omega (arith, h))
value-decimal_loop (suc fuel) n acc h =
    let digit : 10 * (n / 10) + (48 + n % 10 - 48) ≡ n = omega arith in
    elim (Bool-cases (n / 10 == 0)) [
      | inl e ↦
          let small : 10 * 0 + (48 + n % 10 - 48) ≡ n = omega (arith, ==_eq (n / 10) 0 e) in
          rw (decimal_loop, e) (ap (λ k. value k acc) small)
      | inr e ↦
          let less : n / 10 < fuel = ground (arith, e, h) in
          rw (decimal_loop, e)
            (value-decimal_loop fuel (n / 10) ((48 + n % 10) ∷ acc) less
              ∙ ap (λ k. value k acc) digit)
    ]

-- Numbers with the same digits are the same.
pub decimal-injective : (m n : ℕ) → decimal m ≡ decimal n → m ≡ n
unfolding decimal
decimal-injective m n h =
    sym (value-decimal_loop (suc m) m [] (omega arith))
    ∙ ap (value 0) h
    ∙ value-decimal_loop (suc n) n [] (omega arith)
