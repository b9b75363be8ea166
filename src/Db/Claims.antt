-- ===== src/Db/Claims.antt =====
-- What a claim of tasks returns, by the rows of the database.
use steda.Prelude.{
  ℕ, ◌≤◌, ◌≡◌, refl, true, false, Bool, ◌||◌, List, [], ◌∷◌, length, All, arith, subst,
}
use steda.Text.{Str, str_eq}
use steda.Error.{
  Error, SqlxError, Result, ok, err, is_suspended, is_cancelled, is_failed_run, is_lease_lost,
}
use steda.Types.{ClaimedTask}
use steda.World.{Database, ClaimedRow}
use steda.Db.{claim_tasks, claimed_tasks_from_rows, claimed_task_from_row, headers_from_column}
use steda.Db.Rows.{Decodes, claimed_tasks_from_rows-Decodes}

-- The database returns at most as many rows as it is asked for.
abbrev pub ClaimsAtMost : {S : Type 0} → Database S → Type 0
ClaimsAtMost {S} db =
    (queue worker_id : Str) (lease batch : ℕ) (names : List Str) (s t : S) (rows : List ClaimedRow)
    → db.claim_tasks queue worker_id lease batch names s ≡ (ok rows, t)
    → length rows ≤ batch

unfoldable pub supports : List Str → Str → Bool
supports [] name = false
supports (n ∷ names) name = str_eq name n || supports names name

-- The database returns rows of the supported tasks alone.
abbrev pub ClaimsSupported : {S : Type 0} → Database S → Type 0
ClaimsSupported {S} db =
    (queue worker_id : Str) (lease batch : ℕ) (names : List Str) (s t : S) (rows : List ClaimedRow)
    → db.claim_tasks queue worker_id lease batch names s ≡ (ok rows, t)
    → All (λ row. supports names row.task_name ≡ true) rows

pub length-Decodes :
    (rows : List ClaimedRow) (tasks : List ClaimedTask)
    → Decodes rows tasks
    → length tasks ≡ length rows
length-Decodes [] [] d = refl
length-Decodes [] (t ∷ ts) d = absurd d
length-Decodes (r ∷ rs) [] d = absurd d
length-Decodes (r ∷ rs) (t ∷ ts) d =
    let (_, _, _, _, _, _, rest) = d in omega (arith, length-Decodes rs ts rest)

pub supported-Decodes :
    (names : List Str) (rows : List ClaimedRow) (tasks : List ClaimedTask)
    → Decodes rows tasks
    → All (λ row. supports names row.task_name ≡ true) rows
    → All (λ task. supports names task.task_name ≡ true) tasks
supported-Decodes names [] [] d h = tt
supported-Decodes names [] (t ∷ ts) d h = absurd d
supported-Decodes names (r ∷ rs) [] d h = absurd d
supported-Decodes names (r ∷ rs) (t ∷ ts) d h =
    let (_, _, same, _, _, _, rest) = d in
    (subst (λ (n : Str). supports names n ≡ true) same h.0, supported-Decodes names rs ts rest h.1)

-- An error of decoding is of no kind that ends an attempt as usual.
pub record IsUnusual (e : Error) : Type 0 where
  pub unsuspended : is_suspended e ≡ false
  pub uncancelled : is_cancelled e ≡ false
  pub unfailed : is_failed_run e ≡ false
  pub owned : is_lease_lost e ≡ false

row-IsUnusual : (row : ClaimedRow) (e : Error) → claimed_task_from_row row ≡ err e → IsUnusual e
unfolding claimed_task_from_row headers_from_column
row-IsUnusual row e h = ground arith

rows-IsUnusual :
    (rows : List ClaimedRow) (e : Error) → claimed_tasks_from_rows rows ≡ err e → IsUnusual e
unfolding claimed_tasks_from_rows
rows-IsUnusual [] e h = cc
rows-IsUnusual (r ∷ rs) e h =
    go (claimed_task_from_row r) refl (claimed_tasks_from_rows rs) refl (rows-IsUnusual rs)
  where
    go :
        (a : Result ClaimedTask Error)
        → claimed_task_from_row r ≡ a
        → (b : Result (List ClaimedTask) Error) → claimed_tasks_from_rows rs ≡ b
        → ((x : Error) → claimed_tasks_from_rows rs ≡ err x → IsUnusual x)
        → IsUnusual e
    go (err x) p b q ih = row-IsUnusual r e (ground arith)
    go (ok task) p (ok tasks) q ih = absurd (ground arith)
    go (ok task) p (err x) q ih = ih e (ground arith)

module _ {S : Type 0} (db : Database S) (queue worker_id : Str) (lease batch : ℕ)
    (names : List Str) where
  pub claim_tasks-ok :
      (s t : S) (tasks : List ClaimedTask)
      → claim_tasks db queue worker_id lease batch names s ≡ (ok tasks, t)
      → (rows : List ClaimedRow) × (db.claim_tasks queue worker_id lease batch names s
          ≡ (ok rows, t))
        × Decodes rows tasks
  unfolding claim_tasks
  claim_tasks-ok s t tasks e = go (db.claim_tasks queue worker_id lease batch names s) refl
    where
      go :
          (p : Result (List ClaimedRow) SqlxError × S)
          → db.claim_tasks queue worker_id lease batch names s ≡ p
          → (rows : List ClaimedRow) × (db.claim_tasks queue worker_id lease batch names s
              ≡ (ok rows, t))
            × Decodes rows tasks
      go (ok rows, u) q =
          (rows, ground arith, claimed_tasks_from_rows-Decodes rows tasks (ground arith))
      go (err x, u) q = absurd (ground arith)

  pub claim_tasks-IsUnusual :
      (s t : S) (e : Error)
      → claim_tasks db queue worker_id lease batch names s ≡ (err e, t)
      → IsUnusual e
  unfolding claim_tasks
  claim_tasks-IsUnusual s t e h = go (db.claim_tasks queue worker_id lease batch names s) refl
    where
      go :
          (p : Result (List ClaimedRow) SqlxError × S)
          → db.claim_tasks queue worker_id lease batch names s ≡ p
          → IsUnusual e
      go (ok rows, u) q = rows-IsUnusual rows e (ground arith)
      go (err x, u) q = ground arith
