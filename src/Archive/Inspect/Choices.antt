-- ===== src/Archive/Inspect/Choices.antt =====
-- The rounds of the second loop of `inspect` (services/worker/worker_app/archive.py), one lemma for
-- each way that a round can go.
use vulnscan.Base.{ℕ, ◌≤◌, ◌<◌, String, true, false, ◌≡◌, ◌⊎◌, inl, inr, refl, arith}
use vulnscan.Archive.Model.{
  ZipInfo, is_locked, UnpackBudget, max_archive_member_bytes, max_archive_entries,
}
use vulnscan.Archive.Inspect.{Choice, skip, stop, refuse, take, choose, is_symlink, is_os_metadata}

pub Choice-cases :
    (c : Choice)
    → (c ≡ skip) ⊎ ((c ≡ stop) ⊎ (((reason : String) × (c ≡ refuse reason)) ⊎ (c ≡ take)))
Choice-cases skip = inl refl
Choice-cases stop = inr (inl refl)
Choice-cases (refuse reason) = inr (inr (inl (reason, refl)))
Choice-cases take = inr (inr (inr refl))

module _ (info : ZipInfo) (budget : UnpackBudget) (room : ℕ) where
  -- An entry is taken only if it fits into what is left.
  pub choose-take :
      choose info budget room ≡ take
      → (info.file_size ≤ room)
        × (info.file_size ≤ max_archive_member_bytes)
        × (budget.entries < max_archive_entries)
        × (is_locked info ≡ false)
        × (is_symlink info ≡ false)
  unfolding choose
  choose-take e = ground arith

  -- An entry is passed over without a word only if there is nothing in it to check, if it is
  -- locked, or if it is what an archiver adds by itself.
  pub choose-skip :
      choose info budget room ≡ skip
      → (is_locked info ≡ true)
        ⊎ ((is_symlink info ≡ true) ⊎ ((is_os_metadata info ≡ true) ⊎ (info.file_size ≡ 0)))
  unfolding choose
  choose-skip e = ground arith
