-- ===== src/Worker/Reclaim/Laws.antt =====
-- What a sweep takes over and what it gives up (services/worker/worker_app/reclaim.py).
use vulnscan.Base.{
  ℕ, String, Bool, true, false, ◌&&◌, ◌||◌, Option, none, some, List, [], ◌∷◌, lookup,
  lookup-insert, first_some, map, any, any-append, contains, IsDistinct, ltb, str_eq, eq_iff, ◌≡◌,
  refl, ◌∙◌, ap, arith, if◌then◌else◌, Bool-cases, Option-cases, inl, inr,
}
use vulnscan.Worker.Reclaim.{PendingEntry, Gathered, is_orphaned, gather_one, gather}

module _ (alive : String → Bool) (min_idle_ms max_deliveries : ℕ) where
  abbrev orphaned : PendingEntry → Bool
  orphaned = is_orphaned alive min_idle_ms max_deliveries

  abbrev matches : String → PendingEntry → Bool
  matches id e = str_eq e.entry_id id && orphaned e

  -- How often the orphaned entry of that name was given out.
  abbrev pub delivered_of : String → List PendingEntry → Option ℕ
  delivered_of id [] = none
  delivered_of id (e ∷ es) =
      first_some (delivered_of id es) (if matches id e then some e.delivered else none)

  abbrev pub gathered : List PendingEntry → Gathered → Gathered
  gathered = gather alive min_idle_ms max_deliveries

  abbrev taken : PendingEntry → Gathered → Gathered
  taken = gather_one alive min_idle_ms max_deliveries

  pub gather-orphaned :
      (e : PendingEntry) (es : List PendingEntry) (g : Gathered) (b : Bool)
      → orphaned e ≡ b
      → gathered (e ∷ es) g ≡ gathered es (if b then taken e g else g)
  unfolding gather
  gather-orphaned e es g b h = ap (λ c. gathered es (if c then taken e g else g)) h

  pub lookup-gather :
      (id : String) (es : List PendingEntry) (g : Gathered)
      → lookup id (gathered es g).delivered_by_id
        ≡ first_some (delivered_of id es) (lookup id g.delivered_by_id)
  unfolding gather
  lookup-gather id [] g = refl
  lookup-gather id (e ∷ es) g = elim (Bool-cases (orphaned e)) [
    | inl h ↦ rw h (
        ap (λ k. lookup id k.delivered_by_id) (gather-orphaned e es g true h)
        ∙ lookup-gather id es (taken e g)
        ∙ ap (first_some (delivered_of id es))
            (lookup-insert e.entry_id id e.delivered g.delivered_by_id)
        ∙ later (delivered_of id es) (str_eq e.entry_id id))
    | inr h ↦ rw h (
        ap (λ k. lookup id k.delivered_by_id) (gather-orphaned e es g false h)
        ∙ lookup-gather id es g
        ∙ earlier (delivered_of id es) (str_eq e.entry_id id))
  ]
    where
      later :
          (o : Option ℕ) (b : Bool)
          → first_some o (if b then some e.delivered else lookup id g.delivered_by_id)
            ≡ first_some
                (first_some o (if b && true then some e.delivered else none))
                (lookup id g.delivered_by_id)
      later none true = refl
      later none false = refl
      later (some n) b = refl

      earlier :
          (o : Option ℕ) (b : Bool)
          → first_some o (lookup id g.delivered_by_id)
            ≡ first_some
                (first_some o (if b && false then some e.delivered else none))
                (lookup id g.delivered_by_id)
      earlier none true = refl
      earlier none false = refl
      earlier (some n) b = refl

  -- Some orphaned entry of that name was given out too often.
  abbrev pub exceeds : String → List PendingEntry → Bool
  exceeds id = any (λ e. matches id e && ltb max_deliveries e.delivered)

  pub contains-abandoned :
      (id : String) (es : List PendingEntry) (g : Gathered)
      → contains id (gathered es g).abandoned_ids ≡ (contains id g.abandoned_ids || exceeds id es)
  unfolding gather
  contains-abandoned id [] g = ground arith
  contains-abandoned id (e ∷ es) g = elim (Bool-cases (orphaned e)) [
    | inl h ↦ rw h (
        ap (λ k. contains id k.abandoned_ids) (gather-orphaned e es g true h)
        ∙ contains-abandoned id es (taken e g)
        ∙ ground (arith, any-append (λ x. str_eq x id) g.abandoned_ids (e.entry_id ∷ [])))
    | inr h ↦ rw h (
        ap (λ k. contains id k.abandoned_ids) (gather-orphaned e es g false h)
        ∙ contains-abandoned id es g
        ∙ ground arith)
  ]

  pub contains-to_claim :
      (id : String) (es : List PendingEntry) (g : Gathered)
      → contains id (gathered es g).to_claim ≡ (contains id g.to_claim || any (matches id) es)
  unfolding gather
  contains-to_claim id [] g = ground arith
  contains-to_claim id (e ∷ es) g = elim (Bool-cases (orphaned e)) [
    | inl h ↦ rw h (
        ap (λ k. contains id k.to_claim) (gather-orphaned e es g true h)
        ∙ contains-to_claim id es (taken e g)
        ∙ ground (arith, any-append (λ x. str_eq x id) g.to_claim (e.entry_id ∷ [])))
    | inr h ↦ rw h (
        ap (λ k. contains id k.to_claim) (gather-orphaned e es g false h)
        ∙ contains-to_claim id es g
        ∙ ground arith)
  ]

  pub delivered_of-some :
      (id : String) (es : List PendingEntry)
      → any (matches id) es ≡ true
      → (n : ℕ) × (delivered_of id es ≡ some n)
  delivered_of-some id [] h = cc
  delivered_of-some id (e ∷ es) h = elim (Option-cases (delivered_of id es)) [
    | inl k ↦ elim (Bool-cases (matches id e)) [
      | inl m ↦ (e.delivered, rw (k, m) refl)
      | inr m ↦ let (n, j) = delivered_of-some id es (ground arith) in (n, rw j refl)
    ]
    | inr (n, k) ↦ (n, rw k refl)
  ]

  abbrev ids : List PendingEntry → List String
  ids = map (λ e. e.entry_id)

  absent :
      (id : String) (es : List PendingEntry)
      → contains id (ids es) ≡ false
      → (delivered_of id es ≡ none) × (exceeds id es ≡ false)
  absent id [] h = (refl, refl)
  absent id (e ∷ es) h = ground (arith, absent id es)

  pub exceeds-delivered_of :
      (id : String) (es : List PendingEntry) (n : ℕ)
      → IsDistinct (ids es)
      → delivered_of id es ≡ some n
      → exceeds id es ≡ ltb max_deliveries n
  exceeds-delivered_of id [] n d h = cc
  exceeds-delivered_of id (e ∷ es) n d h = elim (Bool-cases (matches id e)) [
    | inl m ↦ found_here (absent id es (ground (arith, eq_iff e.entry_id id))) m
    | inr m ↦ ground (arith, exceeds-delivered_of id es n d.1)
  ]
    where
      found_here :
          (delivered_of id es ≡ none) × (exceeds id es ≡ false)
          → matches id e ≡ true
          → exceeds id (e ∷ es) ≡ ltb max_deliveries n
      found_here a m = ground (arith, a.0, a.1)
