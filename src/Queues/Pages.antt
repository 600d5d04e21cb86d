-- ===== src/Queues/Pages.antt =====
-- The pages of a stream that is read backwards, each from one before the last entry of the page before
-- (`_step_back` of packages/vscommon/queue.py).
use vulnscan.Base.{
  ℕ, zero, suc, ◌+◌, ◌≤◌, Bool, true, false, List, [], ◌∷◌, keep, ◌≡◌, refl, ap, arith, Bool-cases,
  inl, inr,
}
use vulnscan.Queues.{EntryId, max_seq, step_back, id_lt, id_le, take, IsBelow, IsOrdered, last_row}

-- What lies strictly below an identifier is what lies up to the one before it.
pub step_back_lem :
    (x y : EntryId) → 1 ≤ y.ms + y.seq → x.seq ≤ max_seq → id_le x (step_back y) ≡ id_lt x y
unfolding step_back
step_back_lem x y h k = ground arith

abbrev pub drop {ℓ} : {A : Type ℓ} → ℕ → List A → List A
drop zero xs = xs
drop (suc n) [] = []
drop (suc n) (x ∷ xs) = drop n xs

pub keep-keep {ℓ} :
    {A : Type ℓ} (p q : A → Bool) (xs : List A)
    → ((x : A) → p x ≡ true → q x ≡ true)
    → keep p (keep q xs) ≡ keep p xs
keep-keep p q [] h = refl
keep-keep p q (x ∷ xs) h = ground (arith, h x, keep-keep p q xs h)

-- The rows up to the identifier before that one.
abbrev pub precedes : {Raw : Type 0} → EntryId → EntryId × Raw → Bool
precedes id row = id_le row.0 (step_back id)

asym : (a b : EntryId) → id_lt a b ≡ true → id_lt b a ≡ false
asym a b h = ground arith

irrefl : (a : EntryId) → id_lt a a ≡ false
irrefl a = ground arith

module _ {Raw : Type 0} where
  keep-IsBelow :
      (id : EntryId) (q : EntryId × Raw → Bool) (xs : List (EntryId × Raw))
      → IsBelow id xs
      → IsBelow id (keep q xs)
  keep-IsBelow id q [] b = tt
  keep-IsBelow id q (x ∷ xs) b = elim (Bool-cases (q x)) [
    | inl e ↦ rw e (b.0, keep-IsBelow id q xs b.1)
    | inr e ↦ rw e (keep-IsBelow id q xs b.1)
  ]

  pub keep-IsOrdered :
      (q : EntryId × Raw → Bool) (xs : List (EntryId × Raw)) → IsOrdered xs → IsOrdered (keep q xs)
  keep-IsOrdered q [] o = tt
  keep-IsOrdered q (x ∷ xs) (v, s, b, o) = elim (Bool-cases (q x)) [
    | inl e ↦ rw e (v, s, keep-IsBelow x.0 q xs b, keep-IsOrdered q xs o)
    | inr e ↦ rw e (keep-IsOrdered q xs o)
  ]

  last-IsBelow :
      (id : EntryId) (m : ℕ) (x : EntryId × Raw) (xs : List (EntryId × Raw))
      → IsBelow id (x ∷ xs)
      → id_lt (last_row x (take m xs)).0 id ≡ true
  last-IsBelow id zero x xs b = b.0
  last-IsBelow id (suc m) x [] b = b.0
  last-IsBelow id (suc m) x (y ∷ ys) b = last-IsBelow id m y ys b.1

  pub last_valid :
      (m : ℕ) (x : EntryId × Raw) (xs : List (EntryId × Raw))
      → IsOrdered (x ∷ xs)
      → 1 ≤ (last_row x (take m xs)).0.ms + (last_row x (take m xs)).0.seq
  last_valid zero x xs o = o.0
  last_valid (suc m) x [] o = o.0
  last_valid (suc m) x (y ∷ ys) o = last_valid m y ys o.3

  keep_below :
      (id : EntryId) (xs : List (EntryId × Raw))
      → 1 ≤ id.ms + id.seq
      → IsOrdered xs
      → IsBelow id xs
      → keep (precedes id) xs ≡ xs
  keep_below id [] v o b = refl
  keep_below id (x ∷ xs) v o b =
      rw (step_back_lem x.0 id v o.1, b.0) (ap (λ ys. x ∷ ys) (keep_below id xs v o.3 b.1))

  -- After a page, what lies before its last row is the rest.
  pub keep-last_row :
      (m : ℕ) (x : EntryId × Raw) (xs : List (EntryId × Raw))
      → IsOrdered (x ∷ xs)
      → keep (precedes (last_row x (take m xs)).0) (x ∷ xs) ≡ drop m xs
  keep-last_row zero x xs (v, s, b, o) =
      rw (step_back_lem x.0 x.0 v s, irrefl x.0) (keep_below x.0 xs v o b)
  keep-last_row (suc m) x [] (v, s, b, o) = rw (step_back_lem x.0 x.0 v s, irrefl x.0) refl
  keep-last_row (suc m) x (y ∷ ys) (v, s, b, o) =
      rw
        (
          step_back_lem x.0 (last_row y (take m ys)).0 (last_valid m y ys o) s,
          asym (last_row y (take m ys)).0 x.0 (last-IsBelow x.0 m y ys b),
        )
        (keep-last_row m y ys o)
