-- ===== src/Text/Equality.antt =====
-- String equality decides paths, and what byte lengths say of prefixes.
use steda.Prelude.{ℕ, ◌+◌, ◌≤◌, ◌≡◌, refl, ap, true, [], ◌∷◌, ◌++◌, arith}
use steda.Text.{Str, len_utf8, byte_len, str_eq, contains, starts_with}

pub str_eq_refl : (s : Str) → str_eq s s ≡ true
unfolding str_eq
str_eq_refl [] = refl
str_eq_refl (c ∷ s) = ground (arith, str_eq_refl s)

pub eq_of_str_eq : (s t : Str) → str_eq s t ≡ true → s ≡ t
unfolding str_eq
eq_of_str_eq [] [] h = refl
eq_of_str_eq [] (b ∷ t) h = cc
eq_of_str_eq (a ∷ s) [] h = cc
eq_of_str_eq (a ∷ s) (b ∷ t) h = ground (arith, eq_of_str_eq s t)

pub str_eq_symm : (s t : Str) → str_eq s t ≡ str_eq t s
unfolding str_eq
str_eq_symm [] [] = refl
str_eq_symm [] (b ∷ t) = refl
str_eq_symm (a ∷ s) [] = refl
str_eq_symm (a ∷ s) (b ∷ t) = ground (arith, str_eq_symm s t)

pub byte_len-append : (s t : Str) → byte_len (s ++ t) ≡ byte_len s + byte_len t
unfolding byte_len
byte_len-append [] t = omega arith
byte_len-append (c ∷ s) t = omega (arith, byte_len-append s t)

len_utf8_pos : (c : ℕ) → 1 ≤ len_utf8 c
len_utf8_pos c = ground arith

byte_len_pos : (c : ℕ) (s : Str) → 1 ≤ byte_len (c ∷ s)
unfolding byte_len
byte_len_pos c s = omega (arith, len_utf8_pos c)

head_eq : (a b : ℕ) {s t : Str} → a ∷ s ≡ b ∷ t → a ≡ b
head_eq a b h = cc

tail_eq : (a b : ℕ) {s t : Str} → a ∷ s ≡ b ∷ t → s ≡ t
tail_eq a b h = cc

-- Prefixes of one string with the same byte length are the same prefix.
pub append_cancel : (s t u v : Str) → s ++ u ≡ t ++ v → byte_len s ≡ byte_len t → (s ≡ t) × (u ≡ v)
unfolding byte_len
append_cancel [] [] u v h e = (refl, h)
append_cancel [] (b ∷ t) u v h e = absurd (omega (arith, len_utf8_pos b))
append_cancel (a ∷ s) [] u v h e = absurd (omega (arith, len_utf8_pos a))
append_cancel (a ∷ s) (b ∷ t) u v h e =
    let same = head_eq a b h in
    let rest = append_cancel s t u v (tail_eq a b h) (omega (arith, ap len_utf8 same)) in
    (ground (arith, rest.0), rest.1)

-- A common prefix cancels.
pub append_cancel_left : (p u v : Str) → p ++ u ≡ p ++ v → u ≡ v
append_cancel_left p u v h = (append_cancel p p u v h refl).1

starts_with-append : (s t : Str) → starts_with (s ++ t) s ≡ true
unfolding starts_with
starts_with-append [] [] = refl
starts_with-append [] (c ∷ t) = refl
starts_with-append (c ∷ s) t = ground (arith, starts_with-append s t)

pub contains_self : (s t : Str) → contains (s ++ t) s ≡ true
unfolding contains
contains_self [] [] = refl
contains_self [] (c ∷ t) = refl
contains_self (c ∷ s) t = ground (arith, starts_with-append (c ∷ s) t)

starts_with_more : (s p t : Str) → starts_with s p ≡ true → starts_with (s ++ t) p ≡ true
unfolding starts_with
starts_with_more [] [] [] h = refl
starts_with_more [] [] (c ∷ t) h = refl
starts_with_more [] (a ∷ p) t h = cc
starts_with_more (c ∷ s) [] t h = refl
starts_with_more (c ∷ s) (a ∷ p) t h = ground (arith, starts_with_more s p t)

-- What a string contains, it contains with more after it, or with more before it.
pub contains_more : (s p t : Str) → contains s p ≡ true → contains (s ++ t) p ≡ true
unfolding contains
contains_more [] [] [] h = refl
contains_more [] [] (c ∷ t) h = ground arith
contains_more [] (a ∷ p) t h = ground arith
contains_more (c ∷ s) p t h = ground (arith, contains_more s p t, starts_with_more (c ∷ s) p t)

pub contains_after : (s t p : Str) → contains t p ≡ true → contains (s ++ t) p ≡ true
unfolding contains
contains_after [] t p h = h
contains_after (c ∷ s) t p h = ground (arith, contains_after s t p h)
