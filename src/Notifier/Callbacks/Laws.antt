-- ===== src/Notifier/Callbacks/Laws.antt =====
-- How long the notifier tries (`_attempt` and `_reschedule` of services/notifier/notifierapp/main.py),
-- and what is left of a result that it could not deliver.
use vulnscan.Base.{
  ℕ, zero, suc, ◌+◌, ◌-◌, ◌≤◌, ◌<◌, String, some, List, [], ◌∷◌, ◌++◌, ◌≡◌, refl, ap, ◌⊎◌, inl, inr,
  arith, leb, length, Bool-cases,
}
use vulnscan.Notifier.Model.{
  CallbackTask, Settings, Queues, publish, validate, schedule_retry, backoff,
}
use vulnscan.Notifier.Callbacks.{SendOutcome, give_up, reschedule, attempt_callback, follow}

backoff-le : (s : Settings) (n : ℕ) → backoff s n ≤ s.max_backoff_s
unfolding backoff
backoff-le s n = omega arith

-- A task that is put off has been tried, may be tried once more, and waits no longer than the limit.
abbrev pub IsWaiting : Settings → CallbackTask × ℕ → Type 0
IsWaiting s (task, delay) =
    (1 ≤ task.attempt) × (task.attempt < s.max_attempts) × (delay ≤ s.max_backoff_s)

abbrev pub AllWaiting : Settings → List (CallbackTask × ℕ) → Type 0
AllWaiting s [] = Unit
AllWaiting s (x ∷ xs) = IsWaiting s x × AllWaiting s xs

AllWaiting-append :
    (s : Settings) (xs : List (CallbackTask × ℕ)) (x : CallbackTask × ℕ)
    → AllWaiting s xs
    → IsWaiting s x
    → AllWaiting s (xs ++ x ∷ [])
AllWaiting-append s [] x h k = (k, tt)
AllWaiting-append s (y ∷ xs) x h k = (h.0, AllWaiting-append s xs x h.1 k)

module _ (host_of : String → String) (s : Settings) where
  -- The letter of a callback is never whole, so it is never published.
  give_up-same :
      (task : CallbackTask) (detail : String) (q : Queues CallbackTask)
      → give_up host_of s task detail q ≡ q
  unfolding give_up publish validate
  give_up-same task detail q = refl

  -- What one attempt does: it leaves the queues, or puts the task off once more.
  attempt_callback-cases :
      (outcome : SendOutcome) (task : CallbackTask) (q : Queues CallbackTask)
      → (attempt_callback host_of s outcome task q ≡ q)
        ⊎ ((task.attempt + 1 < s.max_attempts)
            × (attempt_callback host_of s outcome task q
                ≡ schedule_retry
                    (record task { attempt = task.attempt + 1 })
                    (backoff s (task.attempt + 1))
                    q))
  unfolding attempt_callback reschedule
  attempt_callback-cases outcome task q = elim (Bool-cases outcome.delivered) [
    | inl e ↦ rw e (inl refl)
    | inr e ↦ elim (Bool-cases outcome.retryable) [
      | inr f ↦ rw (e, f) (inl (give_up-same task outcome.detail q))
      | inl f ↦ elim (Bool-cases (leb s.max_attempts (task.attempt + 1))) [
        | inl g ↦ rw (e, f, g) (inl (give_up-same task outcome.detail q))
        | inr g ↦ rw (e, f, g) (inr (ground arith, refl))
      ]
    ]
  ]

  -- Whatever a receiver answers, the tasks that wait for another attempt have been tried, stay below
  -- the limit of attempts and wait no longer than the limit of the delay, if those that waited before
  -- did.
  pub attempt_callback-AllWaiting :
      (outcome : SendOutcome) (task : CallbackTask) (q : Queues CallbackTask)
      → AllWaiting s q.retries
      → AllWaiting s (attempt_callback host_of s outcome task q).retries
  attempt_callback-AllWaiting outcome task q h = elim (attempt_callback-cases outcome task q) [
    | inl e ↦ rw e h
    | inr (b, e) ↦
        rw e (AllWaiting-append s q.retries _ h (omega arith, b, backoff-le s (task.attempt + 1)))
  ]

  -- A result that cannot be delivered leaves no dead letter: no attempt, whatever the receiver answers
  -- and however often it was made, adds to that queue.
  pub dlq-attempt_callback :
      (outcome : SendOutcome) (task : CallbackTask) (q : Queues CallbackTask)
      → (attempt_callback host_of s outcome task q).dlq ≡ q.dlq
  dlq-attempt_callback outcome task q = elim (attempt_callback-cases outcome task q) [
    | inl e ↦ ap (λ r. r.dlq) e
    | inr (b, e) ↦ ap (λ r. r.dlq) e
  ]

  abbrev pub AllShort : List ℕ → Type 0
  AllShort [] = Unit
  AllShort (d ∷ ds) = (d ≤ s.max_backoff_s) × AllShort ds

  -- The notifier comes to an end with every result: with as much fuel as attempts are left, and at
  -- least one round, the task is delivered or dropped after at most as many delays as attempts are
  -- left after the first one, each of them within the limit of the delay.
  pub follow-ends :
      (answers : ℕ → SendOutcome) (fuel : ℕ) (task : CallbackTask)
      → s.max_attempts ≤ fuel + task.attempt
      → 1 ≤ fuel
      → (delays : List ℕ) × (follow host_of s answers fuel task ≡ some delays)
        × (length delays ≤ s.max_attempts - (task.attempt + 1))
        × AllShort delays
  unfolding follow
  follow-ends answers zero task h z = absurd (omega arith)
  follow-ends answers (suc fuel) task h z =
      let empty : Queues CallbackTask = record { retries = []; dlq = [] } in
      elim (attempt_callback-cases (answers task.attempt) task empty) [
        | inl e ↦ rw (e, follow) ([], refl, omega arith, tt)
        | inr (b, e) ↦
            let later : CallbackTask = record task { attempt = task.attempt + 1 } in
            let (ds, f, n, k) =
              follow-ends answers fuel later (omega arith) (omega (arith, b, h)) in
            rw (e, follow, f)
              (backoff s (task.attempt + 1) ∷ ds, refl, omega (arith, b, n), (backoff-le s _, k))
      ]
