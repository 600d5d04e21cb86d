-- ===== src/Scan/Process/Archives.antt =====
-- What a clean answer of a full pass (`Pipeline._process_full` of
-- services/worker/worker_app/pipeline.py) says about the files inside an archive.
use vulnscan.Base.{ℕ, String, some, List, ◌≡◌}
use vulnscan.Risk.Model.{clean}
use vulnscan.Risk.Weights.{WeightTable}
use vulnscan.Scan.Model.{ScanJob, ScanContext, Stage, Trace}
use vulnscan.Scan.Context.{facts}
use vulnscan.Scan.Members.{World, expand}
use vulnscan.Scan.Members.Covers.{IsScanned, Covers}
use vulnscan.Scan.Process.{ScanResult, Services}

module _ (w : World) (sv : Services) (stages : List Stage) (fuel : ℕ) (weights : WeightTable)
    (job : ScanJob) (path : String) (c : ScanContext) (t : Trace) where
  -- Every member of the archive was scanned, one after the other, and the answer judges what came of it.
  abbrev pub IsInspected : ScanResult → Type 0
  IsInspected r =
      (last : ScanContext) × IsScanned w stages (expand w stages fuel) c.members c last
      × (r.facts ≡ some (facts last))

  abbrev Clean : ScanResult → Type 0
  Clean r = r.verdict ≡ clean → IsInspected r
