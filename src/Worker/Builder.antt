-- ===== src/Worker/Builder.antt =====
-- What a worker is that builds.
use steda.Prelude.{
  ℕ, ◌≤◌, ◌≡◌, ◌≢◌, refl, false, Option, none, some, List, [], ◌∷◌, ltb, is_empty, arith, ◌==◌,
  Bool-cases, inl, inr, subst,
}
use steda.Duration.{Duration}
use steda.Error.{Error, Result, ok, err}
use steda.Names.{validate_task_name}
use steda.Options.{i32_max, duration_seconds}
use steda.Task.{Task}
use steda.Executor.{TaskExecutor}
use steda.Queue.{Queue}
use steda.Worker.{
  Worker, WorkerBuilder, WorkerRuntime, Registry, contains_key, new_builder, unless_failed,
  unless_error, set_lease, lease_duration, concurrency, set_concurrency, register,
  register_task_executor, finish_build, build_worker, worker_lease_seconds,
}

-- A call of the builder.
pub data BuilderCall (S : Type 0) : Type 0 where
  leases : Duration → BuilderCall S
  limits : ℕ → BuilderCall S
  registers : Task → TaskExecutor S → BuilderCall S

unfoldable pub apply_call : {S : Type 0} → BuilderCall S → WorkerBuilder S → WorkerBuilder S
apply_call (leases lease) b = lease_duration lease b
apply_call (limits n) b = concurrency n b
apply_call (registers task executor) b = register_task_executor task executor b

unfoldable pub configure : {S : Type 0} → List (BuilderCall S) → WorkerBuilder S → WorkerBuilder S
unfolding apply_call
configure [] b = b
configure (call ∷ calls) b = configure calls (apply_call call b)

-- Every name is valid, and registered once.
abbrev pub IsValidRegistry : {S : Type 0} → Registry S → Type 0
IsValidRegistry [] = Unit
IsValidRegistry ((name, e) ∷ registry) =
    (validate_task_name name ≡ ok tt)
    × (contains_key name registry ≡ false)
    × IsValidRegistry registry

-- The lease is a number of seconds that the database takes, and the capacity too.
pub record IsValidRuntime (r : WorkerRuntime) : Type 0 where
  pub seconds : ℕ
  pub leased : worker_lease_seconds r.lease_duration ≡ ok seconds
  pub lasting : 1 ≤ seconds
  pub positive : 1 ≤ r.concurrency
  pub fits : r.concurrency ≤ i32_max

pub record IsValidBuilder {S : Type 0} (b : WorkerBuilder S) : Type 0 where
  pub registry : IsValidRegistry b.registry
  pub runtime : IsValidRuntime b.runtime

module _ {S : Type 0} where
  set_lease-IsValid :
      (lease : Duration) (b : WorkerBuilder S) (r : Result ℕ Error)
      → duration_seconds lease ≡ r
      → IsValidBuilder b
      → IsValidBuilder (set_lease lease r b)
  unfolding worker_lease_seconds
  set_lease-IsValid lease b (err e) q v = record { registry = v.registry; runtime = v.runtime }
  set_lease-IsValid lease b (ok n) q v = elim (Bool-cases (n == 0)) [
    | inl e ↦ rw e (record { registry = v.registry; runtime = v.runtime })
    | inr e ↦ rw e (record {
      registry = v.registry;
      runtime = record {
        seconds = n;
        leased = q;
        lasting = ground (arith, e);
        positive = v.runtime.positive;
        fits = v.runtime.fits;
      };
    })
  ]

  register-IsValid :
      (task : Task) (executor : TaskExecutor S) (b : WorkerBuilder S) (r : Result (Unit {0}) Error)
      → validate_task_name task.name ≡ r
      → IsValidBuilder b
      → IsValidBuilder (register task executor r b)
  register-IsValid task executor b (err e) q v = record {
    registry = v.registry;
    runtime = v.runtime;
  }
  register-IsValid task executor b (ok done) q v =
      elim (Bool-cases (contains_key task.name b.registry)) [
        | inl e ↦ rw e (record { registry = v.registry; runtime = v.runtime })
        | inr e ↦ rw e (record { registry = (q, e, v.registry); runtime = v.runtime })
      ]

  unless_failed-IsValid :
      (f : WorkerBuilder S → WorkerBuilder S) (b : WorkerBuilder S)
      → (IsValidBuilder b → IsValidBuilder (f b))
      → IsValidBuilder b
      → IsValidBuilder (unless_failed f b)
  unless_failed-IsValid f b keep v = go b.error
    where
      go : (o : Option Error) → IsValidBuilder (unless_error o f b)
      go none = keep v
      go (some e) = v

  limited : (n : ℕ) (b : WorkerBuilder S) → IsValidBuilder b → IsValidBuilder (set_concurrency n b)
  limited n b v = elim (Bool-cases (n == 0)) [
    | inl e ↦ rw e (record { registry = v.registry; runtime = v.runtime })
    | inr e ↦ elim (Bool-cases (ltb i32_max n)) [
      | inl w ↦ rw (e, w) (record { registry = v.registry; runtime = v.runtime })
      | inr w ↦
          rw (e, w)
            (record {
              registry = v.registry;
              runtime = record {
                seconds = v.runtime.seconds;
                leased = v.runtime.leased;
                lasting = v.runtime.lasting;
                positive = ground (arith, e);
                fits = ground (arith, w);
              };
            })
    ]
  ]

  concurrency-IsValid :
      (n : ℕ) (b : WorkerBuilder S) → IsValidBuilder b → IsValidBuilder (concurrency n b)
  unfolding concurrency
  concurrency-IsValid n b v =
      unless_failed-IsValid (λ b. set_concurrency n b) b (λ v. limited n b v) v

  apply_call-IsValid :
      (call : BuilderCall S) (b : WorkerBuilder S)
      → IsValidBuilder b
      → IsValidBuilder (apply_call call b)
  unfolding apply_call lease_duration register_task_executor
  apply_call-IsValid (leases lease) b v =
      unless_failed-IsValid (λ b. set_lease lease (duration_seconds lease) b) b
        (set_lease-IsValid lease b (duration_seconds lease) refl) v
  apply_call-IsValid (limits n) b v = concurrency-IsValid n b v
  apply_call-IsValid (registers task executor) b v =
      unless_failed-IsValid (λ b. register task executor (validate_task_name task.name) b) b
        (register-IsValid task executor b (validate_task_name task.name) refl) v

  configure-IsValid :
      (calls : List (BuilderCall S)) (b : WorkerBuilder S)
      → IsValidBuilder b
      → IsValidBuilder (configure calls b)
  unfolding configure
  configure-IsValid [] b v = v
  configure-IsValid (call ∷ calls) b v =
      configure-IsValid calls (apply_call call b) (apply_call-IsValid call b v)

  new_builder-IsValid : (queue : Queue S) → IsValidBuilder (new_builder queue)
  unfolding worker_lease_seconds duration_seconds
  new_builder-IsValid queue = record {
    registry = tt;
    runtime = record {
      seconds = 120;
      leased = refl;
      lasting = omega arith;
      positive = omega arith;
      fits = omega arith;
    };
  }

  -- A worker that builds, after any calls of its builder, has at least one task, each under a valid
  -- name and registered once, a lease of at least a second that the database takes, so that its loop
  -- starts, and a concurrency between one and the largest i32.
  pub build_worker-IsValid :
      (queue : Queue S) (calls : List (BuilderCall S)) (worker : Worker S)
      → build_worker (configure calls (new_builder queue)) ≡ ok worker
      → (worker.registry ≢ []) × IsValidRegistry worker.registry × IsValidRuntime worker.runtime
  unfolding build_worker
  build_worker-IsValid queue calls worker e =
      let b = configure calls (new_builder queue) in
      let v = configure-IsValid calls (new_builder queue) (new_builder-IsValid queue) in
      finish b.error b v e
    where
      finish :
          (o : Option Error) (b : WorkerBuilder S)
          → IsValidBuilder b
          → finish_build o b ≡ ok worker
          → (worker.registry ≢ []) × IsValidRegistry worker.registry × IsValidRuntime worker.runtime
      finish (some x) b v h = cc
      finish none b v h = elim (Bool-cases (is_empty b.registry)) [
        | inl empty ↦ absurd (ground (arith, empty, h))
        | inr busy ↦
            let built : Worker S = record {
              queue = b.queue;
              registry = b.registry;
              runtime = b.runtime;
            } in
            let same : built ≡ worker = ground (arith, busy, h) in
            subst
              (λ (w : Worker S).
                (w.registry ≢ []) × IsValidRegistry w.registry × IsValidRuntime w.runtime)
              same (λ n. ground (arith, busy, n), v.registry, v.runtime)
      ]
