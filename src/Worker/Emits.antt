-- ===== src/Worker/Emits.antt =====
-- Handlers of the worker that write only what a test admits (services/worker/worker_app/main.py).
use vulnscan.Base.{Bool, true, false, List, ◌∷◌, ◌≡◌, refl, if◌then◌else◌}
use vulnscan.Worker.Failures.{Error}
use vulnscan.Worker.Redis.{
  Effect, Redis, raised, died, Act, pure, ◌>>=◌, read, write, swallow, attempt, finally,
}
use vulnscan.Worker.Logic.{
  Grows, same, more, Grows-trans, Grows-weaken, Grows-keeps, Leaves, by_return, by_raise, by_death,
  Triple, map-Leaves, write-Triple, read-Triple, swallowed-Leaves, attempted-Leaves, closed-Leaves,
  continue-Leaves,
}

-- However it ends, the log is the one before with writes that pass the test.
pub record Emits {ℓ} {A : Type ℓ} (p : Effect → Bool) (m : Act A) : Type ℓ where
  pub grows : (w : Redis) → Leaves (λ a. Grows p w.log) (Grows p w.log) (m w)

module _ {p : Effect → Bool} where
  -- After writes that pass the test.
  after {ℓ} :
      {A : Type ℓ} {m : Act A} (l : List Effect)
      → Emits p m
      → Triple (Grows p l) m (λ a. Grows p l) (Grows p l)
  after l h = record {
    runs = λ w g. map-Leaves (λ a k. Grows-trans g) (λ k. Grows-trans g) (h.grows w);
  }

  pub pure-Emits {ℓ} : {A : Type ℓ} {a : A} → Emits p (pure a)
  pure-Emits = record { grows = λ w. by_return same }

  pub raised-Emits {ℓ} : {A : Type ℓ} {e : Error} → Emits {A = A} p (raised e)
  raised-Emits = record { grows = λ w. by_raise same }

  pub died-Emits {ℓ} : {A : Type ℓ} → Emits {A = A} p died
  died-Emits = record { grows = λ w. by_death same }

  pub write-Emits : (e : Effect) → p e ≡ true → Emits p (write e)
  write-Emits e h = record {
    grows = λ w. (write-Triple (λ l g. g) (λ l g. more h g) (λ l g. more h g)).runs w same;
  }

  pub read-Emits {ℓ} : {A : Type ℓ} (f : List Effect → A) → Emits p (read f)
  read-Emits f = record { grows = λ w. (read-Triple f (λ l g. g) (λ l g. g)).runs w same }

  pub bind-Emits {ℓ κ} :
      {A : Type ℓ} {B : Type κ} {m : Act A} {f : A → Act B}
      → Emits p m
      → ((a : A) → Emits p (f a))
      → Emits p (m >>= f)
  bind-Emits h k = record { grows = λ w. continue-Leaves (h.grows w) (λ a. after w.log (k a)) }

  pub swallow-Emits : {m : Act (Unit {0})} → Emits p m → Emits p (swallow m)
  swallow-Emits h = record { grows = λ w. swallowed-Leaves (λ l g. g) (h.grows w) }

  pub attempt-Emits {ℓ κ} :
      {A : Type ℓ} {B : Type κ} {m : Act A} {f : Error → Act B} {g : A → Act B}
      → Emits p m
      → ((e : Error) → Emits p (f e))
      → ((a : A) → Emits p (g a))
      → Emits p (attempt m f g)
  attempt-Emits h k j = record {
    grows = λ w.
        attempted-Leaves (h.grows w) (λ l g. g) (λ e. after w.log (k e)) (λ a. after w.log (j a));
  }

  pub finally-Emits {ℓ} :
      {A : Type ℓ} {m : Act A} {last : Act (Unit {0})}
      → Emits p m
      → Emits p last
      → Emits p (finally m last)
  finally-Emits h k = record {
    grows = λ w. closed-Leaves (h.grows w) (λ a. after w.log k) (after w.log k);
  }

  pub if-Emits {ℓ} :
      {A : Type ℓ} {m n : Act A} (b : Bool)
      → (b ≡ true → Emits p m)
      → (b ≡ false → Emits p n)
      → Emits p (if b then m else n)
  if-Emits true h k = h refl
  if-Emits false h k = k refl

  pub Emits-weaken {ℓ} :
      {A : Type ℓ} {m : Act A} {q : Effect → Bool}
      → ((e : Effect) → p e ≡ true → q e ≡ true)
      → Emits p m
      → Emits q m
  Emits-weaken f h = record {
    grows = λ w. map-Leaves (λ a l. Grows-weaken f) (λ l. Grows-weaken f) (h.grows w);
  }

  -- What each such write keeps, the handler keeps.
  pub Emits-keeps {ℓ} :
      {A : Type ℓ} {m : Act A} (S : List Effect → Type 0)
      → ((e : Effect) (l : List Effect) → p e ≡ true → S l → S (e ∷ l))
      → Emits p m
      → Triple S m (λ a. S) S
  Emits-keeps S f h = record {
    runs =
        λ w s. map-Leaves (λ a l g. Grows-keeps S f g s) (λ l g. Grows-keeps S f g s) (h.grows w);
  }
