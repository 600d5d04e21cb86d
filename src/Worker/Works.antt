-- ===== src/Worker/Works.antt =====
-- Handlers of the worker while Redis works (services/worker/worker_app/main.py): they return.
use vulnscan.Base.{Bool, true, false, List, [], ◌∷◌, ◌≡◌, refl, if◌then◌else◌}
use vulnscan.Worker.Failures.{Error}
use vulnscan.Worker.Redis.{
  Effect, Redis, Ended, returned, raised, Act, pure, ◌>>=◌, continue, swallowed, attempted, closed,
  ask_with, read, write, swallow, finally,
}

-- Every call to come works.
abbrev pub calm : List Effect → Redis
calm log = record { log = log; plan = [] }

-- The handler has returned, and Redis works on.
pub data Returned {ℓ} {A : Type ℓ} : Ended A → Type ℓ where
  by_calm : {a : A} {l : List Effect} → Returned (returned a (calm l))

pub record Works {ℓ} {A : Type ℓ} (m : Act A) : Type ℓ where
  pub returns : (l : List Effect) → Returned (m (calm l))

continue-Returned {ℓ κ} :
    {A : Type ℓ} {B : Type κ} {r : Ended A} {f : A → Act B}
    → Returned r
    → ((a : A) → Works (f a))
    → Returned (continue r f)
continue-Returned by_calm k = (k _).returns _

swallowed-Returned : {r : Ended (Unit {0})} → Returned r → Returned (swallowed r)
swallowed-Returned by_calm = by_calm

closed-Returned {ℓ} :
    {A : Type ℓ} {r : Ended A} {last : Act (Unit {0})}
    → Returned r
    → Works last
    → Returned (closed r last)
closed-Returned by_calm k = continue-Returned (k.returns _) (λ u. record { returns = λ l. by_calm })

pub pure-Works {ℓ} : {A : Type ℓ} {a : A} → Works (pure a)
pure-Works = record { returns = λ l. by_calm }

pub write-Works : (e : Effect) → Works (write e)
unfolding write ask_with
write-Works e = record { returns = λ l. by_calm }

pub read-Works {ℓ} : {A : Type ℓ} (f : List Effect → A) → Works (read f)
unfolding read ask_with
read-Works f = record { returns = λ l. by_calm }

pub bind-Works {ℓ κ} :
    {A : Type ℓ} {B : Type κ} {m : Act A} {f : A → Act B}
    → Works m
    → ((a : A) → Works (f a))
    → Works (m >>= f)
bind-Works h k = record { returns = λ l. continue-Returned (h.returns l) k }

pub swallow-Works : {m : Act (Unit {0})} → Works m → Works (swallow m)
swallow-Works h = record { returns = λ l. swallowed-Returned (h.returns l) }

pub finally-Works {ℓ} :
    {A : Type ℓ} {m : Act A} {last : Act (Unit {0})} → Works m → Works last → Works (finally m last)
finally-Works h k = record { returns = λ l. closed-Returned (h.returns l) k }

pub if-Works {ℓ} :
    {A : Type ℓ} {m n : Act A} (b : Bool) → Works m → Works n → Works (if b then m else n)
if-Works true h k = h
if-Works false h k = k

-- A handler that returns or raises while Redis works.
pub data Stands {ℓ} {A : Type ℓ} : Ended A → Type ℓ where
  by_answer : {a : A} {l : List Effect} → Stands (returned a (calm l))
  by_error : {e : Error} {l : List Effect} → Stands {A = A} (raised e (calm l))

pub attempted-Returned {ℓ κ} :
    {A : Type ℓ} {B : Type κ} {r : Ended A} {f : Error → Act B} {g : A → Act B}
    → Stands r
    → ((e : Error) → Works (f e))
    → ((a : A) → Works (g a))
    → Returned (attempted r f g)
attempted-Returned by_answer f g = (g _).returns _
attempted-Returned by_error f g = (f _).returns _

-- The handler returns while Redis works, with a condition on the answer and the log.
pub data Got {ℓ} {A : Type ℓ} (P : A → List Effect → Type 0) : Ended A → Type ℓ where
  got : {a : A} {l : List Effect} → P a l → Got P (returned a (calm l))

pub record Gets {ℓ} {A : Type ℓ} (m : Act A) (P : A → List Effect → Type 0) : Type ℓ where
  pub gets : (l : List Effect) → Got P (m (calm l))

continue-Got {ℓ κ} :
    {A : Type ℓ} {B : Type κ} {P : B → List Effect → Type 0} {r : Ended A} {f : A → Act B}
    → Returned r
    → ((a : A) → Gets (f a) P)
    → Got P (continue r f)
continue-Got by_calm k = (k _).gets _

-- Whatever works first.
pub bind-Gets {ℓ κ} :
    {A : Type ℓ} {B : Type κ} {P : B → List Effect → Type 0} {m : Act A} {f : A → Act B}
    → Works m
    → ((a : A) → Gets (f a) P)
    → Gets (m >>= f) P
bind-Gets h k = record { gets = λ l. continue-Got (h.returns l) k }

pub write-Gets :
    {P : Unit {0} → List Effect → Type 0} (e : Effect)
    → ((l : List Effect) → P tt (e ∷ l))
    → Gets (write e) P
unfolding write ask_with
write-Gets e h = record { gets = λ l. got (h l) }

pub if-Gets {ℓ} :
    {A : Type ℓ} {P : A → List Effect → Type 0} {m n : Act A} (b : Bool)
    → (b ≡ true → Gets m P)
    → (b ≡ false → Gets n P)
    → Gets (if b then m else n) P
if-Gets true h k = h refl
if-Gets false h k = k refl

-- A condition on the answer, given on as the next handler runs.
pub then-Got {ℓ κ} :
    {A : Type ℓ} {B : Type κ} {P : A → List Effect → Type 0} {R : B → List Effect → Type 0}
    {r : Ended A} (f : A → Act B)
    → Got P r
    → ((a : A) (l : List Effect) → P a l → Got R (f a (calm l)))
    → Got R (continue r f)
then-Got f (got x) k = k _ _ x

pub closed-Got {ℓ} :
    {A : Type ℓ} {P : A → List Effect → Type 0} {r : Ended A} (last : Act (Unit {0}))
    → Got P r
    → ((a : A) (l : List Effect) → P a l → Got (λ u. P a) (last (calm l)))
    → Got P (closed r last)
closed-Got last (got x) k = then-Got _ (k _ _ x) (λ u l y. got y)

pub attempted-Got {ℓ κ} :
    {A : Type ℓ} {B : Type κ} {P : B → List Effect → Type 0} {r : Ended A} {f : Error → Act B}
    {g : A → Act B}
    → Stands r
    → ((e : Error) → Gets (f e) P)
    → ((a : A) → Gets (g a) P)
    → Got P (attempted r f g)
attempted-Got by_answer f g = (g _).gets _
attempted-Got by_error f g = (f _).gets _
