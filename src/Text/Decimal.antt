-- ===== src/Text/Decimal.antt =====
-- Decimal formatting: it is injective, prints digits alone, and never prints nothing.
use steda.Prelude.{
  ℕ, zero, suc, ◌+◌, ◌-◌, ◌*◌, ◌/◌, ◌%◌, ◌≤◌, ◌<◌, ◌≡◌, refl, sym, ap, ◌∙◌, [], ◌∷◌, ◌++◌, arith,
  ltb, Bool-cases, inl, inr, All, ltb→lt,
}
use steda.Text.{Str, decimal_fuel, decimal}

-- The number that a string of digits denotes, after the digits of `acc`.
value : ℕ → Str → ℕ
value acc [] = acc
value acc (c ∷ s) = value (acc * 10 + (c - 48)) s

value-append : (acc : ℕ) (s t : Str) → value acc (s ++ t) ≡ value (value acc s) t
unfolding value
value-append acc [] t = refl
value-append acc (c ∷ s) t = value-append (acc * 10 + (c - 48)) s t

value-decimal_fuel : (f n : ℕ) → n < f → value 0 (decimal_fuel f n) ≡ n
unfolding decimal_fuel value
value-decimal_fuel zero n h = elim h [ ]
value-decimal_fuel (suc f) n h = elim (Bool-cases (ltb n 10)) [
  | inl small ↦ rw small (omega arith)
  | inr large ↦
      rw (large, value-append 0 (decimal_fuel f (n / 10)) ((48 + n % 10) ∷ []))
        (omega (arith, value-decimal_fuel f (n / 10) (ground arith)))
]

-- The printed digits read back as the number.
value-decimal : (n : ℕ) → value 0 (decimal n) ≡ n
unfolding decimal
value-decimal n = value-decimal_fuel (suc n) n (omega arith)

pub decimal-injective : (m n : ℕ) → decimal m ≡ decimal n → m ≡ n
decimal-injective m n h = sym (value-decimal m) ∙ ap (value 0) h ∙ value-decimal n

abbrev pub IsDigit : ℕ → Type 0
IsDigit c = (48 ≤ c) × (c ≤ 57)

All-append_IsDigit : (s t : Str) → All IsDigit s → All IsDigit t → All IsDigit (s ++ t)
All-append_IsDigit [] t h k = k
All-append_IsDigit (c ∷ s) t h k = (h.0, All-append_IsDigit s t h.1 k)

decimal_fuel-IsDigit : (f n : ℕ) → All IsDigit (decimal_fuel f n)
unfolding decimal_fuel
decimal_fuel-IsDigit zero n = tt
decimal_fuel-IsDigit (suc f) n = elim (Bool-cases (ltb n 10)) [
  | inl small ↦ rw small ((omega arith, omega (arith, ltb→lt n 10 small)), tt)
  | inr large ↦ rw large (
      All-append_IsDigit (decimal_fuel f (n / 10)) ((48 + n % 10) ∷ [])
        (decimal_fuel-IsDigit f (n / 10)) ((omega arith, omega arith), tt))
]

pub decimal-IsDigit : (n : ℕ) → All IsDigit (decimal n)
unfolding decimal
decimal-IsDigit n = decimal_fuel-IsDigit (suc n) n

-- Two strings of digits, each closed by a colon, split in one way.
pub digits_cancel :
    (s t u v : Str)
    → All IsDigit s
    → All IsDigit t
    → s ++ (58 ∷ u) ≡ t ++ (58 ∷ v)
    → (s ≡ t) × (u ≡ v)
digits_cancel [] [] u v hs ht e = (refl, cc)
digits_cancel [] (b ∷ t) u v hs ht e = let same : ◌≡◌ {A = ℕ} 58 b = cc in absurd (omega arith)
digits_cancel (a ∷ s) [] u v hs ht e = let same : ◌≡◌ {A = ℕ} a 58 = cc in absurd (omega arith)
digits_cancel (a ∷ s) (b ∷ t) u v hs ht e =
    let rest = digits_cancel s t u v hs.1 ht.1 cc in (cc rest.0, rest.1)
