-- ===== src/Text/Blank.antt =====
-- When the code's test `s.trim().is_empty()` holds.
use mathlib.Core.List.{reverse-cons}
use steda.Prelude.{
  ◌≡◌, refl, ◌∙◌, Bool, false, [], ◌∷◌, ◌++◌, reverse, arith, all, all-append, is_empty,
}
use steda.Text.{Str, is_whitespace, trim_start, trim}

-- Every scalar value is white space.
abbrev pub is_blank : Str → Bool
is_blank = all is_whitespace

is_empty-snoc : (s : Str) (c : _) → is_empty (s ++ c ∷ []) ≡ false
is_empty-snoc [] c = refl
is_empty-snoc (x ∷ s) c = refl

is_empty-reverse : (s : Str) → is_empty (reverse s) ≡ is_empty s
is_empty-reverse [] = refl
is_empty-reverse (c ∷ s) = rw (reverse-cons c s) (is_empty-snoc (reverse s) c)

is_blank-reverse : (s : Str) → is_blank (reverse s) ≡ is_blank s
is_blank-reverse [] = refl
is_blank-reverse (c ∷ s) =
    rw (reverse-cons c s, all-append is_whitespace (reverse s) (c ∷ []), is_blank-reverse s)
      (ground arith)

is_empty-trim_start : (s : Str) → is_empty (trim_start s) ≡ is_blank s
unfolding trim_start
is_empty-trim_start [] = refl
is_empty-trim_start (c ∷ s) = ground (arith, is_empty-trim_start s)

is_blank-trim_start : (s : Str) → is_blank (trim_start s) ≡ is_blank s
unfolding trim_start
is_blank-trim_start [] = refl
is_blank-trim_start (c ∷ s) = ground (arith, is_blank-trim_start s)

-- The trimmed string is empty exactly when the string is blank.
pub is_empty-trim : (s : Str) → is_empty (trim s) ≡ is_blank s
unfolding trim
is_empty-trim s =
    is_empty-reverse (trim_start (reverse (trim_start s)))
    ∙ is_empty-trim_start (reverse (trim_start s))
    ∙ is_blank-reverse (trim_start s)
    ∙ is_blank-trim_start s
