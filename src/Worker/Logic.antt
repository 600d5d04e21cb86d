-- ===== src/Worker/Logic.antt =====
-- Rules for what the worker's handlers write to Redis (services/worker/worker_app/main.py), however
-- their calls end.
use vulnscan.Base.{Bool, true, false, List, [], ◌∷◌, ◌≡◌, refl, if◌then◌else◌}
use vulnscan.Worker.Failures.{Error}
use vulnscan.Worker.Redis.{
  Effect, Fault, works, fails, loses, dies, Redis, Ended, returned, raised, died, Act, pure,
  swallowed, attempted, closed, continue, ◌>>=◌, ask_with, read, write,
}

-- A log after writes that pass the test, and no others.
pub data Grows (p : Effect → Bool) : List Effect → List Effect → Type 0 where
  same : {l : List Effect} → Grows p l l
  more : {e : Effect} {l m : List Effect} → p e ≡ true → Grows p l m → Grows p l (e ∷ m)

module _ {p : Effect → Bool} where
  pub Grows-trans : {k l m : List Effect} → Grows p k l → Grows p l m → Grows p k m
  Grows-trans g same = g
  Grows-trans g (more h h') = more h (Grows-trans g h')

  pub Grows-weaken :
      {q : Effect → Bool} {l m : List Effect}
      → ((e : Effect) → p e ≡ true → q e ≡ true)
      → Grows p l m
      → Grows q l m
  Grows-weaken f same = same
  Grows-weaken f (more h g) = more (f _ h) (Grows-weaken f g)

  -- What each such write keeps, all of them keep.
  pub Grows-keeps :
      {l m : List Effect} (S : List Effect → Type 0)
      → ((e : Effect) (k : List Effect) → p e ≡ true → S k → S (e ∷ k))
      → Grows p l m
      → S l
      → S m
  Grows-keeps S f same s = s
  Grows-keeps S f (more h g) s = f _ _ h (Grows-keeps S f g s)

-- What holds of the log at the end of a handler: one condition where it returns, one where it does not.
pub data Leaves {ℓ} {A : Type ℓ} (P : A → List Effect → Type 0) (Q : List Effect → Type 0)
    : Ended A → Type ℓ where
  by_return : {a : A} {w : Redis} → P a w.log → Leaves P Q (returned a w)
  by_raise : {e : Error} {w : Redis} → Q w.log → Leaves P Q (raised e w)
  by_death : {w : Redis} → Q w.log → Leaves P Q (died w)

-- From every log with the first condition, the handler ends with the others.
pub record Triple {ℓ} {A : Type ℓ} (I : List Effect → Type 0) (m : Act A)
    (P : A → List Effect → Type 0) (Q : List Effect → Type 0) : Type ℓ where
  pub runs : (w : Redis) → I w.log → Leaves P Q (m w)

pub map-Leaves {ℓ} :
    {A : Type ℓ} {P R : A → List Effect → Type 0} {Q T : List Effect → Type 0} {r : Ended A}
    → ((a : A) (l : List Effect) → P a l → R a l)
    → ((l : List Effect) → Q l → T l)
    → Leaves P Q r
    → Leaves R T r
map-Leaves f g (by_return x) = by_return (f _ _ x)
map-Leaves f g (by_raise x) = by_raise (g _ x)
map-Leaves f g (by_death x) = by_death (g _ x)

pub continue-Leaves {ℓ κ} :
    {A : Type ℓ} {B : Type κ} {P : A → List Effect → Type 0} {R : B → List Effect → Type 0}
    {Q : List Effect → Type 0} {r : Ended A} {f : A → Act B}
    → Leaves P Q r
    → ((a : A) → Triple (P a) (f a) R Q)
    → Leaves R Q (continue r f)
continue-Leaves (by_return x) k = (k _).runs _ x
continue-Leaves (by_raise x) k = by_raise x
continue-Leaves (by_death x) k = by_death x

module _ {I Q : List Effect → Type 0} where
  pub pure-Triple {ℓ} :
      {A : Type ℓ} {P : A → List Effect → Type 0} {a : A}
      → ((l : List Effect) → I l → P a l)
      → Triple I (pure a) P Q
  pure-Triple f = record { runs = λ w i. by_return (f w.log i) }

  pub bind-Triple {ℓ κ} :
      {A : Type ℓ} {B : Type κ} {P : A → List Effect → Type 0} {R : B → List Effect → Type 0}
      {m : Act A} {f : A → Act B}
      → Triple I m P Q
      → ((a : A) → Triple (P a) (f a) R Q)
      → Triple I (m >>= f) R Q
  bind-Triple h k = record { runs = λ w i. continue-Leaves (h.runs w i) k }

  pub ask-Leaves {ℓ} :
      {A : Type ℓ} {P : A → List Effect → Type 0} (f : List Effect → A × List Effect)
      → ((l : List Effect) → I l → Q l)
      → ((l : List Effect) → I l → Q (f l).1)
      → ((l : List Effect) → I l → P (f l).0 (f l).1)
      → (plan : List Fault) (log : List Effect) → I log
      → Leaves P Q (ask_with plan f log)
  unfolding ask_with
  ask-Leaves f q q' h [] log i = by_return (h log i)
  ask-Leaves f q q' h (works ∷ plan) log i = by_return (h log i)
  ask-Leaves f q q' h (fails ∷ plan) log i = by_raise (q log i)
  ask-Leaves f q q' h (loses ∷ plan) log i = by_raise (q' log i)
  ask-Leaves f q q' h (dies ∷ plan) log i = by_death (q log i)

  pub write-Triple :
      {P : Unit {0} → List Effect → Type 0} {e : Effect}
      → ((l : List Effect) → I l → Q l)
      → ((l : List Effect) → I l → Q (e ∷ l))
      → ((l : List Effect) → I l → P tt (e ∷ l))
      → Triple I (write e) P Q
  unfolding write
  write-Triple {e = e} q q' h = record {
    runs = λ w i. ask-Leaves (λ log. (tt, e ∷ log)) q q' h w.plan w.log i;
  }

  pub read-Triple {ℓ} :
      {A : Type ℓ} {P : A → List Effect → Type 0} (f : List Effect → A)
      → ((l : List Effect) → I l → Q l)
      → ((l : List Effect) → I l → P (f l) l)
      → Triple I (read f) P Q
  unfolding read
  read-Triple f q h = record { runs = λ w i. ask-Leaves (λ log. (f log, log)) q q h w.plan w.log i }

pub swallowed-Leaves :
    {P : Unit {0} → List Effect → Type 0} {Q : List Effect → Type 0} {r : Ended (Unit {0})}
    → ((l : List Effect) → Q l → P tt l)
    → Leaves P Q r
    → Leaves P Q (swallowed r)
swallowed-Leaves h (by_return x) = by_return x
swallowed-Leaves h (by_raise x) = by_return (h _ x)
swallowed-Leaves h (by_death x) = by_death x

pub attempted-Leaves {ℓ κ} :
    {A : Type ℓ} {B : Type κ} {P : A → List Effect → Type 0} {R : B → List Effect → Type 0}
    {Q T : List Effect → Type 0} {r : Ended A} {f : Error → Act B} {g : A → Act B}
    → Leaves P Q r
    → ((l : List Effect) → Q l → T l)
    → ((e : Error) → Triple Q (f e) R T)
    → ((a : A) → Triple (P a) (g a) R T)
    → Leaves R T (attempted r f g)
attempted-Leaves (by_return x) q f g = (g _).runs _ x
attempted-Leaves (by_raise x) q f g = (f _).runs _ x
attempted-Leaves (by_death x) q f g = by_death (q _ x)

pub closed-Leaves {ℓ} :
    {A : Type ℓ} {P R : A → List Effect → Type 0} {Q : List Effect → Type 0} {r : Ended A}
    {last : Act (Unit {0})}
    → Leaves P Q r
    → ((a : A) → Triple (P a) last (λ u. R a) Q)
    → Triple Q last (λ u. Q) Q
    → Leaves R Q (closed r last)
closed-Leaves (by_return x) g f = continue-Leaves ((g _).runs _ x) (λ u. pure-Triple (λ l i. i))
closed-Leaves (by_raise x) g f =
    continue-Leaves (f.runs _ x) (λ u. record { runs = λ w i. by_raise i })
closed-Leaves (by_death x) g f = by_death x

pub map-Triple {ℓ} :
    {A : Type ℓ} {m : Act A} {I J : List Effect → Type 0} {P R : A → List Effect → Type 0}
    {Q T : List Effect → Type 0}
    → ((l : List Effect) → J l → I l)
    → ((a : A) (l : List Effect) → P a l → R a l)
    → ((l : List Effect) → Q l → T l)
    → Triple I m P Q
    → Triple J m R T
map-Triple j r t h = record { runs = λ w i. map-Leaves r t (h.runs w (j w.log i)) }

pub if-Triple {ℓ} :
    {A : Type ℓ} {m n : Act A} {I : List Effect → Type 0} {P : A → List Effect → Type 0}
    {Q : List Effect → Type 0} (b : Bool)
    → (b ≡ true → Triple I m P Q)
    → (b ≡ false → Triple I n P Q)
    → Triple I (if b then m else n) P Q
if-Triple true h k = h refl
if-Triple false h k = k refl
