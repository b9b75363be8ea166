-- ===== src/Worker/Loop/Joins.antt =====
-- What a joined attempt says: which errors stop a worker, and what taking an attempt out leaves.
use steda.Prelude.{
  ℕ, zero, suc, ◌≡◌, refl, false, Option, none, some, List, [], ◌∷◌, length, arith, All, subst, sym,
  ap,
}
use mathlib.Core.List.{Permᴰ}
use mathlib.Core.List.Permᴰ
use steda.Text.{Str}
use steda.Error.{Error, Result, ok, err, is_suspended, is_cancelled, is_failed_run, is_lease_lost}
use steda.Options.Stages.{OnSome}
use steda.Worker.{is_transient_worker_error}
use steda.Worker.Loop.{take_at, attempt_result, ended, failed_join, terminal_join_error}

-- An error that stops a worker: neither transient nor of a kind that an attempt ends with as usual.
pub record IsFatal (e : Error) : Type 0 where
  pub lasting : is_transient_worker_error e ≡ false
  pub unsuspended : is_suspended e ≡ false
  pub uncancelled : is_cancelled e ≡ false
  pub unfailed : is_failed_run e ≡ false
  pub owned : is_lease_lost e ≡ false

IsFatal-of_err : (r : Result (Unit {0}) Error) (x : Error) → attempt_result r ≡ err x → IsFatal x
unfolding attempt_result
IsFatal-of_err (ok done) x h = cc
IsFatal-of_err (err e) x h = unfold is_transient_worker_error in ground arith

pub attempt_result-IsFatal :
    (r : Result (Unit {0}) Error) → OnSome IsFatal (terminal_join_error (ended (attempt_result r)))
unfolding terminal_join_error
attempt_result-IsFatal r = go (attempt_result r) refl
  where
    go :
        (a : Result (Unit {0}) Error)
        → attempt_result r ≡ a
        → OnSome IsFatal (terminal_join_error (ended a))
    go (ok done) e = tt
    go (err x) e = IsFatal-of_err r x e

take_at-suc {ℓ} :
    {A : Type ℓ} (n : ℕ) (y : A) (ys : List A) {x : A} {rest : List A}
    → take_at (suc n) (y ∷ ys) ≡ some (x, rest)
    → (zs : List A) × (take_at n ys ≡ some (x, zs)) × (rest ≡ y ∷ zs)
unfolding take_at
take_at-suc {A = A} n y ys {x} {rest} e = go (take_at n ys) refl
  where
    go :
        (o : Option (A × List A))
        → take_at n ys ≡ o
        → (zs : List A) × (take_at n ys ≡ some (x, zs)) × (rest ≡ y ∷ zs)
    go none q = absurd (ground arith)
    go (some (z, zs)) q = (zs, ground arith, ground arith)

pub failed_join-IsFatal :
    (message : Str) → OnSome IsFatal (terminal_join_error (failed_join message))
unfolding terminal_join_error is_transient_worker_error
failed_join-IsFatal message = record {
  lasting = refl;
  unsuspended = refl;
  uncancelled = refl;
  unfailed = refl;
  owned = refl;
}

pub take_at-All {ℓ κ} :
    {A : Type ℓ} (P : A → Type κ) (n : ℕ) (xs : List A) {x : A} {rest : List A}
    → take_at n xs ≡ some (x, rest)
    → All P xs
    → P x × All P rest
unfolding take_at
take_at-All P n [] e h = cc
take_at-All {A = A} P zero (y ∷ ys) {x} {rest} e h =
    let same : ◌≡◌ {A = A × List A} (y, ys) (x, rest) = cc in
    subst (λ (p : A × List A). P p.0 × All P p.1) same h
take_at-All P (suc n) (y ∷ ys) e h =
    let (zs, e1, e2) = take_at-suc n y ys e in
    let (here, there) = take_at-All P n ys e1 h.1 in (here, subst (All P) (sym e2) (h.0, there))

-- The attempt that is taken out and the others are those that were there.
pub take_at-Perm {ℓ} :
    {A : Type ℓ} (n : ℕ) (xs : List A) {x : A} {rest : List A}
    → take_at n xs ≡ some (x, rest)
    → Permᴰ xs (x ∷ rest)
unfolding take_at
take_at-Perm n [] e = cc
take_at-Perm {A = A} zero (y ∷ ys) {x} {rest} e =
    let same : ◌≡◌ {A = A × List A} (y, ys) (x, rest) = cc in
    subst (λ (p : A × List A). Permᴰ (y ∷ ys) (p.0 ∷ p.1)) same (Permᴰ.refl (y ∷ ys))
take_at-Perm (suc n) (y ∷ ys) {x} e =
    let (zs, e1, e2) = take_at-suc n y ys e in
    subst (λ r. Permᴰ (y ∷ ys) (x ∷ r)) (sym e2)
      (Permᴰ.trans (Permᴰ.cons refl (take_at-Perm n ys e1)) (Permᴰ.swap refl refl))

pub length-take_at {ℓ} :
    {A : Type ℓ} (n : ℕ) (xs : List A) {x : A} {rest : List A}
    → take_at n xs ≡ some (x, rest)
    → length xs ≡ suc (length rest)
unfolding take_at
length-take_at n [] e = cc
length-take_at zero (y ∷ ys) e = ground arith
length-take_at (suc n) (y ∷ ys) e =
    let (zs, e1, e2) = take_at-suc n y ys e in
    let h = length-take_at n ys e1 in omega (arith, ap length e2, h)
