-- ===== src/Queues/Recent.antt =====
-- The latest dead letters, page by page, are the first of those that are wanted (`DeadLetterQueue.recent` of
-- packages/vscommon/queue.py).
use mathlib.Core.List.{append-nil, append_assoc}
use vulnscan.Base.{
  ℕ, zero, suc, ◌+◌, ◌≤◌, ◌<◌, String, Bool, true, false, not, Option, none, some, List, [], ◌∷◌,
  ◌++◌, length, length-append, any, keep, ltb, ◌==◌, ◌≡◌, refl, subst, sym, ◌∙◌, ap, arith, ltb→lt,
  Bool-cases, Option-cases, inl, inr,
}
use vulnscan.Notifier.Model.{DeadLetter}
use vulnscan.Queues.{
  EntryId, step_back, id_le, is_within, take, IsOrdered, Stream, page_size, wanted, select_one,
  last_row, note, collect, after_page, recent_from, recent, select,
}
use vulnscan.Queues.Pages.{drop, precedes, keep-keep, keep-IsOrdered, last_valid, keep-last_row}

module _ {ℓ} {A : Type ℓ} where
  length-take : (n : ℕ) (xs : List A) → length (take n xs) ≤ n
  length-take zero xs = omega arith
  length-take (suc n) [] = omega arith
  length-take (suc n) (x ∷ xs) = omega (arith, length-take n xs)

  take_all : (n : ℕ) (xs : List A) → length xs ≤ n → take n xs ≡ xs
  take_all zero [] h = refl
  take_all zero (x ∷ xs) h = ground arith
  take_all (suc n) [] h = refl
  take_all (suc n) (x ∷ xs) h = ap (λ ys. x ∷ ys) (take_all n xs (omega (arith, h)))

  take-append : (n : ℕ) (xs ys : List A) → length xs ≡ n → take n (xs ++ ys) ≡ xs
  take-append zero [] ys h = refl
  take-append zero (x ∷ xs) ys h = ground arith
  take-append (suc n) [] ys h = ground arith
  take-append (suc n) (x ∷ xs) ys h = ap (λ zs. x ∷ zs) (take-append n xs ys (omega (arith, h)))

  take-take-append : (n : ℕ) (xs ys : List A) → take n (take n xs ++ ys) ≡ take n (xs ++ ys)
  take-take-append zero xs ys = refl
  take-take-append (suc n) [] ys = refl
  take-take-append (suc n) (x ∷ xs) ys = ap (λ zs. x ∷ zs) (take-take-append n xs ys)

  take-drop : (n : ℕ) (xs : List A) → take n xs ++ drop n xs ≡ xs
  take-drop zero xs = refl
  take-drop (suc n) [] = refl
  take-drop (suc n) (x ∷ xs) = ap (λ zs. x ∷ zs) (take-drop n xs)

  -- A short page is all there is.
  take_short : (n : ℕ) (xs : List A) → length (take n xs) < n → take n xs ≡ xs
  take_short zero xs h = ground arith
  take_short (suc n) [] h = refl
  take_short (suc n) (x ∷ xs) h = ap (λ ys. x ∷ ys) (take_short n xs (omega (arith, h)))

  length-drop : (n : ℕ) (xs : List A) → length (drop n xs) ≤ length xs
  length-drop zero xs = omega arith
  length-drop (suc n) [] = omega arith
  length-drop (suc n) (x ∷ xs) = omega (arith, length-drop n xs)

  any-keep : (q : A → Bool) (xs : List A) → any (λ x. not (q x)) (keep q xs) ≡ false
  any-keep q [] = refl
  any-keep q (x ∷ xs) = ground (arith, any-keep q xs)

last-any :
    {Raw : Type 0} (q : EntryId × Raw → Bool) (m : ℕ) (x : EntryId × Raw)
    (xs : List (EntryId × Raw))
    → any (λ r. not (q r)) (x ∷ xs) ≡ false
    → q (last_row x (take m xs)) ≡ true
last-any q zero x xs h = ground arith
last-any q (suc m) x [] h = ground arith
last-any q (suc m) x (y ∷ ys) h = last-any q m y ys (ground arith)

precedes-within :
    (cursor : Option EntryId) (l z : EntryId)
    → 1 ≤ l.ms + l.seq
    → is_within cursor l ≡ true
    → id_le z (step_back l) ≡ true
    → is_within cursor z ≡ true
unfolding step_back
precedes-within none l z v h k = refl
precedes-within (some c) l z v h k = ground arith

module _ {Raw : Type 0} (validate : Raw → Option DeadLetter) (count : ℕ)
    (tenant : Option String) where
  abbrev chosen : List (EntryId × Raw) → List DeadLetter
  chosen = select validate tenant

  chosen-append : (xs ys : List (EntryId × Raw)) → chosen (xs ++ ys) ≡ chosen xs ++ chosen ys
  chosen-append [] ys = refl
  chosen-append (x ∷ xs) ys =
      ap (λ zs. select_one (wanted tenant (validate x.1)) ++ zs) (chosen-append xs ys)
      ∙ sym (append_assoc (select_one (wanted tenant (validate x.1))) (chosen xs) (chosen ys))

  -- A letter that is wanted, with what is known of the rows after it.
  noted :
      (rows : List (EntryId × Raw)) (found : List DeadLetter) (entry : DeadLetter)
      → length found < count
      → (length (found ++ entry ∷ []) < count
          → collect validate count tenant rows (found ++ entry ∷ [])
            ≡ take count ((found ++ entry ∷ []) ++ chosen rows))
      → note validate count tenant (some entry) found (collect validate count tenant rows)
        ≡ take count (found ++ entry ∷ chosen rows)
  noted rows found entry h k = elim (Bool-cases (length (found ++ entry ∷ []) == count)) [
    | inl e ↦ rw e (
        sym (take-append count (found ++ entry ∷ []) (chosen rows) (ground arith))
        ∙ ap (take count) (append_assoc found (entry ∷ []) (chosen rows)))
    | inr e ↦ rw e (
        k (ground (arith, length-append found (entry ∷ [])))
        ∙ ap (take count) (append_assoc found (entry ∷ []) (chosen rows)))
  ]

  collect_lem :
      (rows : List (EntryId × Raw)) (found : List DeadLetter)
      → length found < count
      → collect validate count tenant rows found ≡ take count (found ++ chosen rows)
  unfolding collect
  collect_lem [] found h = rw (append-nil found) (sym (take_all count found (omega (arith, h))))
  collect_lem (row ∷ rows) found h = elim (Option-cases (wanted tenant (validate row.1))) [
    | inl e ↦ rw e (collect_lem rows found h)
    | inr (entry, e) ↦ rw e (noted rows found entry h (collect_lem rows (found ++ entry ∷ [])))
  ]

  module _ (stream : Stream Raw) where
    abbrev rest_of : Option EntryId → List (EntryId × Raw)
    rest_of cursor = keep (λ row. is_within cursor row.0) stream.entries

    -- What lies beyond a page.
    rest-next :
        (cursor : Option EntryId) (m : ℕ) (x : EntryId × Raw) (xs : List (EntryId × Raw))
        → rest_of cursor ≡ x ∷ xs
        → rest_of (some (step_back (last_row x (take m xs)).0)) ≡ drop m xs
    rest-next cursor m x xs h =
        sym (
          keep-keep (precedes last.0) (λ row. is_within cursor row.0) stream.entries
            (λ z. precedes-within cursor last.0 z.0 (last_valid m x xs sorted) (
              last-any (λ row. is_within cursor row.0) m x xs
                (subst (λ rows. any (λ row. not (is_within cursor row.0)) rows ≡ false) h
                  (any-keep (λ row. is_within cursor row.0) stream.entries)))))
        ∙ ap (keep (precedes last.0)) h
        ∙ keep-last_row m x xs sorted
      where
        last : EntryId × Raw
        last = last_row x (take m xs)

        sorted : IsOrdered (x ∷ xs)
        sorted =
            subst IsOrdered h
              (keep-IsOrdered (λ row. is_within cursor row.0) stream.entries stream.ordered)

    abbrev read_on : ℕ → Option EntryId → List DeadLetter → List DeadLetter
    read_on = recent_from validate count tenant stream

    -- What the loop is to answer.
    abbrev answer : Option EntryId → List DeadLetter → List DeadLetter
    answer cursor found = take count (found ++ chosen (rest_of cursor))

    join-pages :
        (m : ℕ) (x : EntryId × Raw) (xs : List (EntryId × Raw)) (found : List DeadLetter)
        → take count (take count (found ++ chosen (x ∷ take m xs)) ++ chosen (drop m xs))
          ≡ take count (found ++ chosen (x ∷ xs))
    join-pages m x xs found =
        take-take-append count (found ++ chosen (x ∷ take m xs)) (chosen (drop m xs))
        ∙ ap (take count) (
            append_assoc found (chosen (x ∷ take m xs)) (chosen (drop m xs))
            ∙ ap (λ zs. found ++ zs)
                (sym (chosen-append (x ∷ take m xs) (drop m xs))
                  ∙ ap (λ rows. chosen (x ∷ rows)) (take-drop m xs)))

    page_step :
        (fuel : ℕ) (cursor : Option EntryId) (found : List DeadLetter) (es : List (EntryId × Raw))
        → rest_of cursor ≡ es
        → length found < count
        → length es ≤ fuel
        → ((id : EntryId) (found' : List DeadLetter)
            → length (rest_of (some id)) < fuel
            → length found' ≤ count
            → read_on fuel (some id) found' ≡ answer (some id) found')
        → after_page validate count tenant (take page_size es) found (λ id. read_on fuel (some id))
          ≡ take count (found ++ chosen es)
    page_step fuel cursor found [] h k n ih =
        rw (append-nil found) (sym (take_all count found (omega (arith, k))))
    page_step fuel cursor found (x ∷ xs) h k n ih =
        elim (Bool-cases (ltb (length (x ∷ take 199 xs)) page_size)) [
          | inl e ↦ rw e (
              collect_lem (x ∷ take 199 xs) found k
              ∙ ap (λ rows. take count (found ++ chosen rows))
                  (take_short page_size (x ∷ xs) (ltb→lt _ _ e)))
          | inr e ↦ rw e (
              ih (step_back (last_row x (take 199 xs)).0)
                (collect validate count tenant (x ∷ take 199 xs) found)
                (subst (λ rows. length rows < fuel) (sym (rest-next cursor 199 x xs h))
                  (omega (arith, n, length-drop 199 xs)))
                (subst (λ f. length f ≤ count) (sym (collect_lem (x ∷ take 199 xs) found k))
                  (length-take count (found ++ chosen (x ∷ take 199 xs))))
              ∙ ap
                  (λ rows.
                    take count
                      (collect validate count tenant (x ∷ take 199 xs) found ++ chosen rows))
                  (rest-next cursor 199 x xs h)
              ∙ ap (λ f. take count (f ++ chosen (drop 199 xs)))
                  (collect_lem (x ∷ take 199 xs) found k)
              ∙ join-pages 199 x xs found)
        ]

    read_on-answer :
        (fuel : ℕ) (cursor : Option EntryId) (found : List DeadLetter)
        → length (rest_of cursor) < fuel
        → length found ≤ count
        → read_on fuel cursor found ≡ answer cursor found
    unfolding recent_from
    read_on-answer zero cursor found n k = ground arith
    read_on-answer (suc fuel) cursor found n k = elim (Bool-cases (ltb (length found) count)) [
      | inl e ↦
          rw (e, stream.xrevrange_law cursor page_size)
            (page_step fuel cursor found (rest_of cursor) refl (ltb→lt _ _ e) (omega (arith, n))
              (λ id. read_on-answer fuel (some id)))
      | inr e ↦ rw e (sym (take-append count found (chosen (rest_of cursor)) (ground (arith, k))))
    ]

keep-all {ℓ} : {A : Type ℓ} (xs : List A) → keep (λ x. true) xs ≡ xs
keep-all [] = refl
keep-all (x ∷ xs) = ap (λ ys. x ∷ ys) (keep-all xs)

-- With more rounds than the stream has entries, `recent` answers the newest letters of the tenant, as many
-- as are asked for and there are, in the order of the stream: nothing is read twice and nothing is
-- passed over between the pages. The stream answers `xrevrange` as Redis promises.
pub recent-select :
    {Raw : Type 0} (validate : Raw → Option DeadLetter) (count : ℕ) (tenant : Option String)
    (stream : Stream Raw) (fuel : ℕ)
    → length stream.entries < fuel
    → recent validate count tenant stream fuel ≡ take count (select validate tenant stream.entries)
unfolding recent
recent-select validate count tenant stream fuel h =
    read_on-answer validate count tenant stream fuel none []
      (subst (λ rows. length rows < fuel) (sym (keep-all stream.entries)) h) (omega arith)
    ∙ ap (λ rows. take count (select validate tenant rows)) (keep-all stream.entries)
