-- ===== src/Notifier/Copies/Laws.antt =====
-- What the client's store shows (`_put` and `_deliver` of services/notifier/notifierapp/main.py).
use vulnscan.Base.{
  ℕ, String, Bool, true, false, List, [], ◌∷◌, ◌≡◌, refl, ◌⊎◌, inl, inr, arith, Bool-cases,
  Option-cases, ◌+◌, ◌<◌, leb,
}
use vulnscan.Notifier.Model.{
  DeliveryTask, Settings, Queues, publish, validate, schedule_retry, backoff,
}
use vulnscan.Notifier.Copies.{
  Upload, file, manifest, Call, ok, fails, Stores, target_name, is_given, put_manifest_after, put,
  delivery_lost, retry_delivery, deliver,
}

-- What may be seen in the store of one task: nothing, the file, the manifest of a task without a file,
-- or the file with the manifest that promises it after it.
abbrev pub IsOrdered : DeliveryTask → List Upload → Type 0
IsOrdered task up =
    (up ≡ [])
    ⊎ (((is_given task.artifact ≡ true) × (up ≡ file (target_name task) ∷ []))
        ⊎ (((is_given task.artifact ≡ false)
              × (up ≡ manifest (target_name task) false task.rebuilt_from_blocked ∷ []))
            ⊎ ((is_given task.artifact ≡ true)
                × (up
                    ≡ file (target_name task)
                      ∷ manifest (target_name task) true task.rebuilt_from_blocked
                      ∷ []))))

Call-cases : (c : Call) → (c ≡ ok) ⊎ ((e : String) × (c ≡ fails e))
Call-cases ok = inl refl
Call-cases (fails e) = inr (e, refl)

put-IsOrdered : (st : Stores) (task : DeliveryTask) → IsOrdered task (put st task).0
unfolding put put_manifest_after
put-IsOrdered st task = elim (Option-cases task.artifact) [
  | inl a ↦ elim (Call-cases st.put_manifest) [
    | inl m ↦ rw (a, m, put, put_manifest_after) (inr (inr (inl (refl, rw a refl))))
    | inr (e, m) ↦ rw (a, m, put, put_manifest_after) (inl refl)
  ]
  | inr (ref, a) ↦ elim (Call-cases st.fetch) [
    | inr (e, f) ↦ rw (a, f, put) (inl refl)
    | inl f ↦ elim (Call-cases st.put_file) [
      | inr (e, g) ↦ rw (a, f, g, put) (inl refl)
      | inl g ↦ elim (Call-cases st.put_manifest) [
        | inl m ↦ rw (a, f, g, m, put, put_manifest_after) (inr (inr (inr (refl, rw a refl))))
        | inr (e, m) ↦ rw (a, f, g, m, put, put_manifest_after) (inr (inl (refl, refl)))
      ]
    ]
  ]
]

module _ (s : Settings) (decimal : ℕ → String) where
  -- Whatever the stores answer, the client's store never shows a manifest that promises a file without
  -- the file before it: it shows nothing, the file alone, the file and then the manifest that promises
  -- it, or, for a task without a file, the manifest that promises none.
  pub deliver-IsOrdered :
      (known : Bool) (st : Stores) (task : DeliveryTask) (q : Queues DeliveryTask)
      → IsOrdered task (deliver s decimal known st task q).0
  unfolding deliver
  deliver-IsOrdered false st task q = inl refl
  deliver-IsOrdered true st task q = elim (Call-cases (put st task).1) [
    | inl e ↦ rw (e, deliver) (put-IsOrdered st task)
    | inr (r, e) ↦ rw (e, deliver) (put-IsOrdered st task)
  ]

  delivery_lost-same :
      (task : DeliveryTask) (detail : String) (q : Queues DeliveryTask)
      → delivery_lost s task detail q ≡ q
  unfolding delivery_lost publish validate
  delivery_lost-same task detail q = refl

  retry_delivery-cases :
      (task : DeliveryTask) (detail : String) (q : Queues DeliveryTask)
      → (retry_delivery s decimal task detail q ≡ q)
        ⊎ ((task.attempt + 1 < s.max_attempts)
            × (retry_delivery s decimal task detail q
                ≡ schedule_retry
                    (record task { attempt = task.attempt + 1 })
                    (backoff s (task.attempt + 1))
                    q))
  unfolding retry_delivery
  retry_delivery-cases task detail q = elim (Bool-cases (leb s.max_attempts (task.attempt + 1))) [
    | inl g ↦ rw g (inl (delivery_lost-same task _ q))
    | inr g ↦ rw g (inr (ground arith, refl))
  ]

  -- An attempt at a copy leaves the queues as they were, the dead letters with them, or puts the task off
  -- with one attempt more, which is below the limit, and with the delay for it.
  pub deliver-cases :
      (known : Bool) (st : Stores) (task : DeliveryTask) (q : Queues DeliveryTask)
      → ((deliver s decimal known st task q).1 ≡ q)
        ⊎ ((task.attempt + 1 < s.max_attempts)
            × ((deliver s decimal known st task q).1
                ≡ schedule_retry
                    (record task { attempt = task.attempt + 1 })
                    (backoff s (task.attempt + 1))
                    q))
  unfolding deliver
  deliver-cases false st task q = inl (delivery_lost-same task _ q)
  deliver-cases true st task q = elim (Call-cases (put st task).1) [
    | inl e ↦ rw (e, deliver) (inl refl)
    | inr (r, e) ↦ rw (e, deliver) (retry_delivery-cases task r q)
  ]
