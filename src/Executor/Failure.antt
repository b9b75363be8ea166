-- ===== src/Executor/Failure.antt =====
-- src/executor.rs: the failure payload tells the whole chain of causes.
use steda.Prelude.{
  ◌≡◌, true, List, [], ◌∷◌, ◌++◌, All, refl, subst, not, Bool-cases, inl, inr, if◌then◌else◌,
}
use mathlib.Core.List.{append-nil}
use steda.Text.{Str, codes, contains}
use steda.Text.Equality.{contains_more, contains_after, contains_self}
use steda.Error.{Error}
use steda.Executor.{add_causes, failure_message, Rendering}

-- The strings that a string contains.
abbrev pub IsIn : Str → Str → Type 0
IsIn s p = contains s p ≡ true

abbrev with_cause : Str → Str → Str
with_cause message rendered =
    if not (contains message rendered) then message ++ (codes ": " ++ rendered) else message

contains-itself : (s : Str) → IsIn s s
contains-itself s = subst (λ (t : Str). contains t s ≡ true) (append-nil s) (contains_self s [])

with_cause-IsIn : (message rendered : Str) → IsIn (with_cause message rendered) rendered
with_cause-IsIn message rendered = elim (Bool-cases (contains message rendered)) [
  | inl e ↦ rw (e, e) refl
  | inr e ↦ rw e (
      contains_after message (codes ": " ++ rendered) rendered
        (contains_after (codes ": ") rendered rendered (contains-itself rendered)))
]

with_cause_keeps :
    (message rendered p : Str) → IsIn message p → IsIn (with_cause message rendered) p
with_cause_keeps message rendered p h = elim (Bool-cases (contains message rendered)) [
  | inl e ↦ rw e h
  | inr e ↦ rw e (contains_more message p (codes ": " ++ rendered) h)
]

add_causes_keeps :
    (message : Str) (causes : List Str) (p : Str)
    → IsIn message p
    → IsIn (add_causes message causes) p
unfolding add_causes
add_causes_keeps message [] p h = h
add_causes_keeps message (rendered ∷ causes) p h =
    add_causes_keeps (with_cause message rendered) causes p (with_cause_keeps message rendered p h)

add_causes-All : (message : Str) (causes : List Str) → All (IsIn (add_causes message causes)) causes
unfolding add_causes
add_causes-All message [] = tt
add_causes-All message (rendered ∷ causes) = (
  add_causes_keeps (with_cause message rendered) causes rendered (with_cause-IsIn message rendered),
  add_causes-All (with_cause message rendered) causes,
)

-- The message of a failure payload contains how the error is displayed, and how each of its causes
-- is, down the whole chain.
pub failure_message-IsIn :
    (rendering : Rendering) (error : Error)
    → IsIn (failure_message rendering error) (rendering.to_string error)
      × All (IsIn (failure_message rendering error)) (rendering.sources error)
unfolding failure_message
failure_message-IsIn rendering error = (
  add_causes_keeps (rendering.to_string error) (rendering.sources error) (rendering.to_string error)
      (contains-itself _),
  add_causes-All (rendering.to_string error) (rendering.sources error),
)
