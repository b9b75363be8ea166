-- ===== src/Sql/History/Kept.antt =====
-- Checkpoints are immutable while their task is retained: the first value that is committed under a
-- name stays.
use steda.Prelude.{ℕ, ◌≡◌, Option, none, some, List, arith, ap, ◌∙◌, Bool-cases, inl, inr, ◌==◌}
use steda.Text.{Str, str_eq}
use steda.Json.{Json}
use steda.Text.Equality.{eq_of_str_eq}
use steda.Sql.{Tables}
use steda.Sql.Attempts.{Server}
use steda.Sql.Calls.{Call, perform_all}
use steda.Sql.Consistency.{IsConsistent}
use steda.Sql.Changes.{Change, noted, committed, begun, advanced, extended, withdrawn}
use steda.Sql.Changes.Batches.{Chain, done, then}
use steda.Sql.History.{perform_all-Chain}
use steda.Sql.Checkpoints.{insert_checkpoint}

kept_as :
    (s v : Tables) (t : ℕ) (n : Str) (j : Json)
    → v.checkpoints ≡ s.checkpoints
    → s.checkpoints t n ≡ some j
    → v.checkpoints t n ≡ some j
kept_as s v t n j e p = ap (λ (f : ℕ → Str → Option Json). f t n) e ∙ p

-- An insertion under an absent key leaves every other key.
insert_checkpoint-keeps :
    (s : Tables) (u : ℕ) (name : Str) (state : Json) (t : ℕ) (n : Str) (j : Json)
    → s.checkpoints u name ≡ none
    → s.checkpoints t n ≡ some j
    → (insert_checkpoint u name state s).checkpoints t n ≡ some j
insert_checkpoint-keeps s u name state t n j absent p = elim (Bool-cases (t == u)) [
  | inr q ↦ rw q p
  | inl q ↦ elim (Bool-cases (str_eq n name)) [
    | inr h ↦ rw (q, h) p
    | inl h ↦
        let same : t ≡ u = ground (arith, q) in
        let names : n ≡ name = eq_of_str_eq n name h in
        absurd (
          ground
            (arith, p, absent, ap (λ i. s.checkpoints i n) same, ap (λ m. s.checkpoints u m) names))
  ]
]

Change-keeps :
    (s v : Tables) (t : ℕ) (n : Str) (j : Json)
    → Change s v
    → s.checkpoints t n ≡ some j
    → v.checkpoints t n ≡ some j
Change-keeps s v t n j (noted e1 e2 e3) p = kept_as s v t n j e3 p
Change-keeps s v t n j (committed u name state absent e1 e2 e3) p =
    ap (λ (f : ℕ → Str → Option Json). f t n) e3
    ∙ insert_checkpoint-keeps s u name state t n j absent p
Change-keeps s v t n j (begun u new q run a e1 e2 e3) p = kept_as s v t n j e3 p
Change-keeps s v t n j (advanced r run next task after a m e1 e2 e3) p = kept_as s v t n j e3 p
Change-keeps s v t n j (extended ended r run next q new task after a m e1 e2 e3) p =
    kept_as s v t n j e3 p
Change-keeps s v t n j (withdrawn ended u next task after a m e1 e2 e3) p = kept_as s v t n j e3 p

Chain-keeps :
    (t : ℕ) (n : Str) (j : Json) {s v : Tables}
    → Chain s v
    → s.checkpoints t n ≡ some j
    → v.checkpoints t n ≡ some j
Chain-keeps t n j done p = p
Chain-keeps t n j (then {s} {u} {v} c d) p = Chain-keeps t n j d (Change-keeps s u t n j c p)

-- A checkpoint that is committed keeps its value after any of the calls of Sql.Calls on consistent
-- tables, other commits under its name, retries and cancellations among them, so for as long as its
-- task is retained: no call of Sql.Calls deletes a task, with which its checkpoints go.
pub perform_all-keeps :
    (server : Server) (calls : List Call) (s : Tables)
    → IsConsistent s.tasks s.runs
    → (t : ℕ) (n : Str) (j : Json) → s.checkpoints t n ≡ some j
    → (perform_all server calls s).checkpoints t n ≡ some j
perform_all-keeps server calls s k t n j p =
    Chain-keeps t n j (perform_all-Chain server calls s k) p
