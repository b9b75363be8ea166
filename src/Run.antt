-- ===== src/Run.antt =====
-- Code that may not come back: user futures and waits. `none` is a call that does not return.
use steda.Prelude.{arith, inr, inl, ◌⊎◌, refl, ◌≡◌, Option, none, some}
use steda.Error.{Error, Result, ok, err}
use steda.World.{M}

abbrev pub Run : Type 0 → Type 0 → Type 0
Run S A = S → Option (Result A Error × S)

-- What follows a call.
abbrev pub after :
    {S A B : Type 0} → (A → Run S B) → Option (Result A Error × S) → Option (Result B Error × S)
after f none = none
after f (some (ok a, t)) = f a t
after f (some (err e, t)) = some (err e, t)

infixl 5 ◌>>=◌ ◌>>◌
abbrev pub ◌>>=◌ : {S A B : Type 0} → Run S A → (A → Run S B) → Run S B
◌>>=◌ m f s = after f (m s)

abbrev pub ◌>>◌ : {S B : Type 0} → Run S (Unit {0}) → Run S B → Run S B
m >> k = m >>= λ _. k

abbrev pub pure : {S A : Type 0} → A → Run S A
pure a s = some (ok a, s)

abbrev pub fail : {S A : Type 0} → Error → Run S A
fail e s = some (err e, s)

abbrev pub lift : {S A : Type 0} → Result A Error → Run S A
lift r s = some (r, s)

-- A call that always comes back.
abbrev pub total : {S A : Type 0} → M S A → Run S A
total m s = some (m s)

-- A chain that returns a value ran its first call to a value, and then the rest.
pub after-eq-ok :
    {S A B : Type 0} (f : A → Run S B) (o : Option (Result A Error × S)) {b : B} {u : S}
    → after f o ≡ some (ok b, u)
    → (a : A) × (t : S) × (o ≡ some (ok a, t)) × (f a t ≡ some (ok b, u))
after-eq-ok f none e = cc
after-eq-ok f (some (ok a, t)) e = (a, t, refl, e)
after-eq-ok f (some (err x, t)) e = cc

-- However a chain ends, either its first call returned a value and the rest ended so, or the first
-- call ended with the chain's error.
pub after-cases :
    {S A B : Type 0} (f : A → Run S B) (o : Option (Result A Error × S)) {r : Result B Error}
    {u : S}
    → after f o ≡ some (r, u)
    → ((a : A) × (t : S) × (o ≡ some (ok a, t)) × (f a t ≡ some (r, u)))
      ⊎ ((e : Error) × (o ≡ some (err e, u)))
after-cases f none e = cc
after-cases f (some (ok a, t)) e = inl (a, t, refl, e)
after-cases f (some (err x, t)) e = inr (x, ground arith)
