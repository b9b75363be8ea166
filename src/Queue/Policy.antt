-- ===== src/Queue/Policy.antt =====
-- The maintenance policy of a queue: creation is one transaction, and what is read back is sound.
use steda.Prelude.{ℕ, ◌≡◌, refl, inl, inr, ◌⊎◌, Option, none, some, arith}
use steda.Error.{Error, SqlxError, Result, ok, err}
use steda.Types.{QueuePolicyOptions}
use steda.World.{call, Database, Procedure, transaction}
use steda.Text.{Str}
use steda.Duration.{Duration}
use steda.Options.{duration_seconds, database_positive_i32}
use steda.Options.Seconds.{seconds_up, rounded_up_lem}
use steda.Queue.{
  Queue, policy_values, in_transaction, end_transaction, create_queue_body, create_with_policy,
}

abbrev seconds_of : Option Duration → Option ℕ
seconds_of none = none
seconds_of (some d) = some (seconds_up d)

-- The time to live in seconds, rounded up, and the limit, each where the options have it.
abbrev pub HoldsPolicy : QueuePolicyOptions → Option ℕ × Option ℕ → Type 0
HoldsPolicy options values =
    (values.0 ≡ seconds_of options.cleanup_ttl) × (values.1 ≡ options.cleanup_limit)

policy_values-HoldsPolicy :
    (options : QueuePolicyOptions) (values : Option ℕ × Option ℕ)
    → policy_values options ≡ ok values
    → HoldsPolicy options values
policy_values-HoldsPolicy options values e = go options.cleanup_ttl options.cleanup_limit e
  where
    go :
        (ttl : Option Duration) (limit : Option ℕ)
        → policy_values (record { cleanup_ttl = ttl; cleanup_limit = limit }) ≡ ok values
        → HoldsPolicy (record { cleanup_ttl = ttl; cleanup_limit = limit }) values
    go none none e = (ground arith, ground arith)
    go none (some m) e = (ground arith, unfold database_positive_i32 in ground arith)
    go (some d) none e = (unfold duration_seconds in ground (arith, rounded_up_lem d), ground arith)
    go (some d) (some m) e = (
      unfold duration_seconds database_positive_i32 in ground (arith, rounded_up_lem d),
      unfold duration_seconds database_positive_i32 in ground arith,
    )

module _ {S : Type 0} (db : Database S) where
  -- The transaction was begun, and the state was left by its rollback.
  abbrev pub IsRolledBack : S → S → Type 0
  IsRolledBack s t = (u : S) × (v : S) × (db.begin s ≡ (ok tt, u)) × (t ≡ db.rollback v)

  -- The policy of a queue was written in the open transaction, unless it sets nothing.
  abbrev pub IsPolicyWritten : Str → Option ℕ → Option ℕ → S → S → Type 0
  IsPolicyWritten name none none w v = v ≡ w
  IsPolicyWritten name (some ttl) limit w v =
      db.set_queue_policy transaction name (some ttl) limit w ≡ (ok tt, v)
  IsPolicyWritten name none (some limit) w v =
      db.set_queue_policy transaction name none (some limit) w ≡ (ok tt, v)

  -- The transaction was begun, the queue and then its policy were written in it, and the commit that
  -- followed succeeded, and left t.
  abbrev pub IsCommitted : Str → Option ℕ × Option ℕ → S → S → Type 0
  IsCommitted name values s t =
      (u : S) × (w : S) × (v : S) × (db.begin s ≡ (ok tt, u))
      × (db.create_queue transaction name u ≡ (ok tt, w))
      × IsPolicyWritten name values.0 values.1 w v
      × (db.commit v ≡ (ok tt, t))

  call-ok :
      {A : Type 0} (p : Procedure S A) (s t : S) (a : A) → call p s ≡ (ok a, t) → p s ≡ (ok a, t)
  call-ok {A} p s t a e = go (p s) refl
    where
      go : (x : Result A SqlxError × S) → p s ≡ x → p s ≡ (ok a, t)
      go (ok b, u) q = ground (arith, q, e)
      go (err x, u) q = absurd (ground (arith, q, e))

  create_queue_body-ok :
      (queue : Queue S) (ttl limit : Option ℕ) (u v : S)
      → create_queue_body db queue (ttl, limit) u ≡ (ok tt, v)
      → (w : S) × (db.create_queue transaction queue.name u ≡ (ok tt, w))
        × IsPolicyWritten queue.name ttl limit w v
  unfolding create_queue_body
  create_queue_body-ok queue ttl limit u v e =
      go (db.create_queue transaction queue.name u) refl ttl limit e
    where
      go :
          (x : Result (Unit {0}) SqlxError × S)
          → db.create_queue transaction queue.name u ≡ x
          → (ttl limit : Option ℕ) → create_queue_body db queue (ttl, limit) u ≡ (ok tt, v)
          → (w : S) × (db.create_queue transaction queue.name u ≡ (ok tt, w))
            × IsPolicyWritten queue.name ttl limit w v
      go (err x, w) q ttl limit e = absurd (ground (arith, q, e))
      go (ok done, w) q none none e = (w, ground (arith, q), ground (arith, q, e))
      go (ok done, w) q (some a) none e = (
        w,
        ground (arith, q),
        call-ok (db.set_queue_policy transaction queue.name (some a) none) w v tt
            (ground (arith, q, e)),
      )
      go (ok done, w) q none (some b) e = (
        w,
        ground (arith, q),
        call-ok (db.set_queue_policy transaction queue.name none (some b)) w v tt
            (ground (arith, q, e)),
      )
      go (ok done, w) q (some a) (some b) e = (
        w,
        ground (arith, q),
        call-ok (db.set_queue_policy transaction queue.name (some a) (some b)) w v tt
            (ground (arith, q, e)),
      )

  end_transaction-cases :
      {A : Type 0} (p : Result A Error × S) {r : Result A Error} {t : S}
      → end_transaction db p ≡ (r, t)
      → ((a : A) × (v : S) × (p ≡ (ok a, v)) × (r ≡ ok a) × (db.commit v ≡ (ok tt, t)))
        ⊎ ((e : Error) × (r ≡ err e) × ((v : S) × (t ≡ db.rollback v)))
  end_transaction-cases (err e, s) h = inr (e, ground arith, (s, ground arith))
  end_transaction-cases {A} (ok a, s) {r} {t} h = go (db.commit s) refl
    where
      go :
          (p : Result (Unit {0}) SqlxError × S)
          → db.commit s ≡ p
          → ((b : A) × (v : S) × (◌≡◌ {A = Result A Error × S} (ok a, s) (ok b, v))
              × (r ≡ ok b)
              × (db.commit v ≡ (ok tt, t)))
            ⊎ ((e : Error) × (r ≡ err e) × ((v : S) × (t ≡ db.rollback v)))
      go (ok done, u) q = inl (a, s, refl, ground arith, ground arith)
      go (err x, u) q = inr (Error.database x, ground arith, (u, ground arith))

  -- Creating a queue is all or nothing. If it succeeds, a transaction was begun, the queue was
  -- created in it, its policy was set in it, where the options have a time to live, in seconds rounded
  -- up, or a limit, and it was committed, in this order. If it fails, the values were refused and
  -- nothing was called, or no transaction began, or the transaction was rolled back.
  pub create_with_policy-cases :
      (queue : Queue S) (options : QueuePolicyOptions) (s t : S) (r : Result (Unit {0}) Error)
      → create_with_policy db queue options s ≡ (r, t)
      → ((values : Option ℕ × Option ℕ) × HoldsPolicy options values
          × (r ≡ ok tt)
          × IsCommitted queue.name values s t)
        ⊎ ((e : Error) × (r ≡ err e)
            × (((policy_values options ≡ err e) × (t ≡ s))
                ⊎ ((call db.begin s ≡ (err e, t)) ⊎ IsRolledBack s t)))
  unfolding create_with_policy in_transaction
  create_with_policy-cases queue options s t r h = go (policy_values options) refl (db.begin s) refl
    where
      go :
          (v : Result (Option ℕ × Option ℕ) Error)
          → policy_values options ≡ v
          → (p : Result (Unit {0}) SqlxError × S) → db.begin s ≡ p
          → ((values : Option ℕ × Option ℕ) × HoldsPolicy options values
              × (r ≡ ok tt)
              × IsCommitted queue.name values s t)
            ⊎ ((e : Error) × (r ≡ err e)
                × (((policy_values options ≡ err e) × (t ≡ s))
                    ⊎ ((call db.begin s ≡ (err e, t)) ⊎ IsRolledBack s t)))
      go (err e) q p b = inr (e, ground arith, inl (q, ground arith))
      go (ok values) q (err x, u) b = inr (Error.database x, ground arith, inr (inl (ground arith)))
      go (ok values) q (ok done, u) b =
          elim (end_transaction-cases (create_queue_body db queue values u) {r = r} {t = t}
            (ground arith)) [
              | inl (a, v, e1, e2, e3) ↦
                  let (w, made, set) = create_queue_body-ok queue values.0 values.1 u v e1 in
                  inl (
                    values,
                    policy_values-HoldsPolicy options values q,
                    e2,
                    (u, w, v, b, made, set, e3),
                  )
              | inr (e, e1, (v, back)) ↦ inr (e, e1, inr (inr (u, v, b, back)))
            ]
