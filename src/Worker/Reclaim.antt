-- ===== src/Worker/Reclaim.antt =====
-- The jobs whose worker has died (`StuckJobReclaimer` of services/worker/worker_app/reclaim.py).
use vulnscan.Base.{
  ℕ, String, Bool, true, false, not, Option, none, some, List, [], ◌∷◌, ◌++◌, Dict, lookup, insert,
  contains, ltb, leb, if◌then◌else◌, ◌>>=◌,
}
use vulnscan.Scan.Model.{ScanJob}
pub mod Laws
pub mod Sweeps
mod Tests

-- `PendingEntry`
pub record PendingEntry : Type 0 where
  pub entry_id : String
  pub consumer : String
  pub idle_ms : ℕ
  pub delivered : ℕ

-- `ClaimedJob`
pub record ClaimedJob : Type 0 where
  pub entry_id : String
  pub job : ScanJob
  pub delivered : ℕ

-- `SweepResult`
pub record SweepResult : Type 0 where
  pub reclaimed : List ClaimedJob
  pub abandoned : List ClaimedJob

abbrev pub nothing_swept : SweepResult
nothing_swept = record { reclaimed = []; abandoned = [] }

-- What the first loop gathers.
pub record Gathered : Type 0 where
  pub to_claim : List String
  pub abandoned_ids : List String
  pub delivered_by_id : Dict ℕ

abbrev pub nothing_gathered : Gathered
nothing_gathered = record { to_claim = []; abandoned_ids = []; delivered_by_id = [] }

abbrev pub is_none_of {ℓ} : {A : Type ℓ} → List A → Bool
is_none_of [] = true
is_none_of (x ∷ xs) = false

-- `target.append(...)`
abbrev pub put_job : Bool → ClaimedJob → SweepResult → SweepResult
put_job true c result = record result { abandoned = result.abandoned ++ c ∷ [] }
put_job false c result = record result { reclaimed = result.reclaimed ++ c ∷ [] }

-- The jobs that `claim` took over, each with the number of its deliveries; a job without one raises.
unfoldable pub place : Gathered → List (String × ScanJob) → SweepResult → Option SweepResult
place g [] result = some result
place g ((entry_id, job) ∷ claimed) result = do
  delivered ← lookup entry_id g.delivered_by_id
  place g claimed (
      put_job (contains entry_id g.abandoned_ids)
        (record { entry_id = entry_id; job = job; delivered = delivered }) result)

-- `Heartbeat.alive`, and the settings.
module _ (alive : String → Bool) (min_idle_ms max_deliveries : ℕ) where
  -- `_is_orphaned`
  unfoldable pub is_orphaned : PendingEntry → Bool
  is_orphaned entry = if ltb entry.idle_ms min_idle_ms then false else not (alive entry.entry_id)

  -- One entry, in the first loop.
  abbrev pub gather_one : PendingEntry → Gathered → Gathered
  gather_one entry g = record {
    to_claim = g.to_claim ++ entry.entry_id ∷ [];
    abandoned_ids =
        if ltb max_deliveries entry.delivered
        then g.abandoned_ids ++ entry.entry_id ∷ []
        else g.abandoned_ids;
    delivered_by_id = insert entry.entry_id entry.delivered g.delivered_by_id;
  }

  -- The first loop.
  unfoldable pub gather : List PendingEntry → Gathered → Gathered
  gather [] g = g
  gather (entry ∷ entries) g = gather entries (if is_orphaned entry then gather_one entry g else g)

  -- `sweep`, on what `pending` answers, with `claim`.
  unfoldable pub sweep :
      List PendingEntry → (List String → List (String × ScanJob)) → Option SweepResult
  sweep entries claim =
      if is_none_of entries
      then some nothing_swept
      else let g = gather entries nothing_gathered in
        if is_none_of g.to_claim
        then some nothing_swept
        else place g (claim g.to_claim) nothing_swept
