-- ===== src/Worker/Reclaim/Sweeps.antt =====
-- A whole sweep (`StuckJobReclaimer.sweep` of services/worker/worker_app/reclaim.py).
use mathlib.Core.Path.{fun_ext}
use mathlib.Core.List.{append-nil, append_assoc}
use vulnscan.Base.{
  ℕ, String, Bool, true, false, some, List, [], ◌∷◌, ◌++◌, map, keep, contains, not, if◌then◌else◌,
  lookup, IsDistinct, ltb, ◌≡◌, refl, sym, subst, ◌∙◌, ap, Bool-cases, inl, inr,
}
use vulnscan.Archive.Inspect.Complete.{All}
use vulnscan.Scan.Model.{ScanJob}
use vulnscan.Worker.Reclaim.{
  PendingEntry, ClaimedJob, SweepResult, nothing_swept, Gathered, nothing_gathered, is_none_of,
  put_job, place, is_orphaned, gather_one, gather, sweep,
}
use vulnscan.Worker.Reclaim.Laws.{
  delivered_of, gather-orphaned, lookup-gather, contains-abandoned, contains-to_claim,
  delivered_of-some, exceeds, exceeds-delivered_of,
}

All-snoc {ℓ κ} :
    {A : Type ℓ} (P : A → Type κ) (xs : List A) {x : A} → All P xs → P x → All P (xs ++ x ∷ [])
All-snoc P [] h p = (p, tt)
All-snoc P (y ∷ ys) h p = (h.0, All-snoc P ys h.1 p)

map-snoc {ℓ κ} :
    {A : Type ℓ} {B : Type κ} (f : A → B) (xs : List A) (x : A) (ys : List B)
    → map f (xs ++ x ∷ []) ++ ys ≡ map f xs ++ f x ∷ ys
map-snoc f [] x ys = refl
map-snoc f (z ∷ xs) x ys = ap (λ zs. f z ∷ zs) (map-snoc f xs x ys)

module _ (alive : String → Bool) (min_idle_ms max_deliveries : ℕ)
    (entries : List PendingEntry) where
  -- The orphaned entries by name.
  abbrev pub orphans : List String
  orphans = map (λ e. e.entry_id) (keep (is_orphaned alive min_idle_ms max_deliveries) entries)

  -- A job of an orphaned entry, with the number of its deliveries; `b` says whether they are too many.
  abbrev pub IsFrom : Bool → ClaimedJob → Type 0
  IsFrom b c =
      (delivered_of alive min_idle_ms max_deliveries c.entry_id entries ≡ some c.delivered)
      × (ltb max_deliveries c.delivered ≡ b)

  abbrev pub IsSorted : SweepResult → Type 0
  IsSorted r = All (IsFrom false) r.reclaimed × All (IsFrom true) r.abandoned

  -- What `claim` gave for a job of the sweep.
  abbrev pub given : ClaimedJob → String × ScanJob
  given c = (c.entry_id, c.job)

  -- The entry of a job that `claim` gave was given out too often.
  abbrev pub is_over : String × ScanJob → Bool
  is_over c = exceeds alive min_idle_ms max_deliveries c.0 entries

  -- The jobs of the sweep are those that `claim` gave, each in its list, in their order.
  abbrev pub IsSplit : List (String × ScanJob) → SweepResult → Type 0
  IsSplit cs r =
      (map given r.reclaimed ≡ keep (λ c. not (is_over c)) cs)
      × (map given r.abandoned ≡ keep is_over cs)

  abbrev all : Gathered
  all = gather alive min_idle_ms max_deliveries entries nothing_gathered

  put_job-IsSorted :
      (b : Bool) (c : ClaimedJob) (r : SweepResult)
      → IsFrom b c
      → IsSorted r
      → IsSorted (put_job b c r)
  put_job-IsSorted true c r f h = (h.0, All-snoc (IsFrom true) r.abandoned h.1 f)
  put_job-IsSorted false c r f h = (All-snoc (IsFrom false) r.reclaimed h.0 f, h.1)

  -- What is known of the lists after a job was put, for the lists before it.
  put_job-splits :
      (b : Bool) (c : ClaimedJob) (r s : SweepResult) (xs ys : List (String × ScanJob))
      → map given s.reclaimed ≡ map given (put_job b c r).reclaimed ++ xs
      → map given s.abandoned ≡ map given (put_job b c r).abandoned ++ ys
      → (map given s.reclaimed ≡ map given r.reclaimed ++ (if not b then given c ∷ xs else xs))
        × (map given s.abandoned ≡ map given r.abandoned ++ (if b then given c ∷ ys else ys))
  put_job-splits true c r s xs ys h k = (h, k ∙ map-snoc given r.abandoned c ys)
  put_job-splits false c r s xs ys h k = (h ∙ map-snoc given r.reclaimed c xs, k)

  -- The test that the sweep makes on a job that `claim` gave.
  abbrev is_marked : String × ScanJob → Bool
  is_marked c = contains c.0 all.abandoned_ids

  is_marked-is_over : is_marked ≡ is_over
  is_marked-is_over =
      fun_ext λ c. contains-abandoned alive min_idle_ms max_deliveries c.0 entries nothing_gathered

  module _ (distinct : IsDistinct (map (λ e. e.entry_id) entries)) where
    -- What is known of an entry that was asked for.
    known :
        (id : String)
        → contains id all.to_claim ≡ true
        → (n : ℕ) × (lookup id all.delivered_by_id ≡ some n)
          × (delivered_of alive min_idle_ms max_deliveries id entries ≡ some n)
          × (ltb max_deliveries n ≡ contains id all.abandoned_ids)
    known id h =
        let (n, e) = delivered_of-some alive min_idle_ms max_deliveries id entries (
          sym (contains-to_claim alive min_idle_ms max_deliveries id entries nothing_gathered)
          ∙ h) in
        (
          n,
          lookup-gather alive min_idle_ms max_deliveries id entries nothing_gathered ∙ rw e refl,
          e,
          sym (
              contains-abandoned alive min_idle_ms max_deliveries id entries nothing_gathered
              ∙ exceeds-delivered_of alive min_idle_ms max_deliveries id entries n distinct e),
        )

    place-IsSorted :
        (cs : List (String × ScanJob)) (r : SweepResult)
        → All (λ c. contains c.0 all.to_claim ≡ true) cs
        → IsSorted r
        → (s : SweepResult) × (place all cs r ≡ some s)
          × IsSorted s
          × (map given s.reclaimed ≡ map given r.reclaimed ++ keep (λ c. not (is_marked c)) cs)
          × (map given s.abandoned ≡ map given r.abandoned ++ keep is_marked cs)
    unfolding place
    place-IsSorted [] r a h = (
      r,
      refl,
      h,
      sym (append-nil (map given r.reclaimed)),
      sym (append-nil (map given r.abandoned)),
    )
    place-IsSorted (c ∷ cs) r a h =
        let (n, l, e, limit) = known c.0 a.0 in
        let job : ClaimedJob = record { entry_id = c.0; job = c.1; delivered = n } in
        let b = contains c.0 all.abandoned_ids in
        let (s, p, q, x', y') =
          place-IsSorted cs (put_job b job r) a.1 (put_job-IsSorted b job r (e, limit) h) in
        let (x, y) = put_job-splits b job r s _ _ x' y' in (s, rw l p, q, x, y)

first-orphans :
    (alive : String → Bool) (min_idle_ms max_deliveries : ℕ) (g : Gathered)
    → (gather alive min_idle_ms max_deliveries [] g).to_claim ≡ g.to_claim ++ []
unfolding gather
first-orphans alive min_idle_ms max_deliveries g = sym (append-nil g.to_claim)

to_claim-orphans :
    (alive : String → Bool) (min_idle_ms max_deliveries : ℕ) (es : List PendingEntry) (g : Gathered)
    → (gather alive min_idle_ms max_deliveries es g).to_claim
      ≡ g.to_claim ++ orphans alive min_idle_ms max_deliveries es
to_claim-orphans alive min_idle_ms max_deliveries [] g =
    first-orphans alive min_idle_ms max_deliveries g
to_claim-orphans alive min_idle_ms max_deliveries (e ∷ es) g =
    elim (Bool-cases (is_orphaned alive min_idle_ms max_deliveries e)) [
      | inl h ↦ rw h (
          ap (λ k. k.to_claim) (gather-orphaned alive min_idle_ms max_deliveries e es g true h)
          ∙ to_claim-orphans alive min_idle_ms max_deliveries es
              (gather_one alive min_idle_ms max_deliveries e g)
          ∙ append_assoc g.to_claim (e.entry_id ∷ []) (orphans alive min_idle_ms max_deliveries es))
      | inr h ↦ rw h (
          ap (λ k. k.to_claim) (gather-orphaned alive min_idle_ms max_deliveries e es g false h)
          ∙ to_claim-orphans alive min_idle_ms max_deliveries es g)
    ]

none_asked : (cs : List (String × ScanJob)) → All (λ c. contains c.0 [] ≡ true) cs → cs ≡ []
none_asked [] h = refl
none_asked (c ∷ cs) h = cc

none_of : (xs : List String) → is_none_of xs ≡ true → xs ≡ []
none_of [] h = refl
none_of (x ∷ xs) h = cc

nothing-IsSplit :
    (alive : String → Bool) (min_idle_ms max_deliveries : ℕ) (entries : List PendingEntry)
    (cs : List (String × ScanJob))
    → cs ≡ []
    → IsSplit alive min_idle_ms max_deliveries entries cs nothing_swept
nothing-IsSplit alive min_idle_ms max_deliveries entries cs e = rw e (refl, refl)

-- Where `claim` answers only jobs that it was asked for and the pending entries have different names, a sweep
-- ends without an exception. It asks for the jobs of the orphaned entries; what it takes over are
-- exactly the jobs that it gets for entries whose deliveries are within the limit, and what it gives
-- up are exactly the others, both in the order in which it gets them, with their entries; and each
-- carries the number of the deliveries of its entry.
pub sweep-IsSorted :
    (alive : String → Bool) (min_idle_ms max_deliveries : ℕ) (entries : List PendingEntry)
    (claim : List String → List (String × ScanJob))
    → IsDistinct (map (λ e. e.entry_id) entries)
    → ((asked : List String) → All (λ c. contains c.0 asked ≡ true) (claim asked))
    → (r : SweepResult) × (sweep alive min_idle_ms max_deliveries entries claim ≡ some r)
      × IsSorted alive min_idle_ms max_deliveries entries r
      × IsSplit alive min_idle_ms max_deliveries entries
          (claim (orphans alive min_idle_ms max_deliveries entries))
          r
unfolding sweep
sweep-IsSorted alive min_idle_ms max_deliveries [] claim d a = (
  nothing_swept,
  refl,
  (tt, tt),
  nothing-IsSplit alive min_idle_ms max_deliveries [] (claim []) (none_asked (claim []) (a [])),
)
sweep-IsSorted alive min_idle_ms max_deliveries (e ∷ es) claim d a =
    elim (Bool-cases (is_none_of asked)) [
      | inl b ↦ (
        nothing_swept,
        rw b refl,
        (tt, tt),
        nothing-IsSplit alive min_idle_ms max_deliveries (e ∷ es) _ (
            subst (λ ids. claim ids ≡ []) (sym (none_of asked b) ∙ named)
              (none_asked (claim []) (a []))),
      )
      | inr b ↦
          let (s, p, q, x, y) =
            place-IsSorted alive min_idle_ms max_deliveries (e ∷ es) d (claim asked) nothing_swept
              (a asked) (tt, tt) in
          (
            s,
            rw b p,
            q,
            subst (λ ids. IsSplit alive min_idle_ms max_deliveries (e ∷ es) (claim ids) s) named
                (
                  x ∙ ap (λ f. keep (λ c. not (f c)) (claim asked)) over,
                  y ∙ ap (λ f. keep f (claim asked)) over,
                ),
          )
    ]
  where
    asked : List String
    asked = (gather alive min_idle_ms max_deliveries (e ∷ es) nothing_gathered).to_claim

    named : asked ≡ orphans alive min_idle_ms max_deliveries (e ∷ es)
    named = to_claim-orphans alive min_idle_ms max_deliveries (e ∷ es) nothing_gathered

    over :
        is_marked alive min_idle_ms max_deliveries (e ∷ es)
        ≡ is_over alive min_idle_ms max_deliveries (e ∷ es)
    over = is_marked-is_over alive min_idle_ms max_deliveries (e ∷ es)
