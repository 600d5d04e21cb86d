-- ===== src/Scan/Members.antt =====
-- The files inside an archive: `analyse` of services/worker/worker_app/stages/archive_structure.py,
-- `Pipeline._expand` and `Pipeline._scan_members` of services/worker/worker_app/pipeline.py.
use Prim.Native.String.{◌++◌ as append}
use vulnscan.Base.{
  ℕ, zero, suc, ◌+◌, String, Bool, true, false, not, ◌||◌, Option, none, some, List, [], ◌∷◌,
  contains, ltb, ◌==◌, if◌then◌else◌,
}
use vulnscan.Archive.Model.{ZipInfo, UnpackBudget, Member, max_archive_depth}
use vulnscan.Archive.Inspect.{inspect, label}
use vulnscan.Archive.Extract.{
  ArchiveError, PyError, EndRecord, Chunk, Outcome, ok, raised, thrown, budget_exceeded, unreadable,
  Extraction, IsCaught, extract, open_archive,
}
use vulnscan.Scan.Model.{
  ScanJob, ScanContext, Run, ran, threw, Stage, Trace, Result, returned, escaped, out_of_fuel,
  ◌>>=◌,
}
use vulnscan.Scan.Context.{adopt, and_then, mark_incomplete, mark_malformed, report}
use vulnscan.Scan.Stages.{run_stages, stops, mark, note_timing}
pub mod Laws
pub mod Carried
pub mod Covers
pub mod Totals

-- What reading one entry of the file at a path gives: see `extract`.
pub record Reading : Type 0 where
  pub entries : EndRecord
  pub zip_error : Option PyError
  pub chunks : List Chunk
  pub read_error : Option PyError
  pub failure : String

-- Reading an entry ends well, or with an exception that `extract` turns into an `ArchiveError`.
abbrev pub IsRead : Reading → Type 0
IsRead r = IsCaught r.entries r.zip_error r.chunks r.read_error

-- What a scan of an archive finds outside the program: the size of a file and its entries without
-- the directories (`zipfile`), what an entry gives when it is read, the temporary path it is put at,
-- whether the time of the tree is over when its turn comes, and how texts and sizes are printed.
pub record World : Type 0 where
  pub size_of : String → ℕ
  pub end_record : String → EndRecord
  pub zip_error : String → Option PyError
  pub open_failure : String → String
  pub entries_of : String → List ZipInfo
  pub read : String → ZipInfo → Reading
  pub place : String → Member → String
  pub expired : String → Member → Bool
  pub extension : String → Option String
  pub human : ℕ → String
  pub summary : List String → String

-- `budget_for`
abbrev pub budget_for : World → ScanContext → UnpackBudget
budget_for w ctx = elim ctx.budget [
  | none ↦ record { root_size = w.size_of ctx.path; declared = 0; unpacked = 0; entries = 0 }
  | some b ↦ b
]

abbrev pub with_budget : UnpackBudget → ScanContext → ScanContext
with_budget b ctx = record ctx { budget = some b }

-- The end of `analyse`, for an archive that opens.
unfoldable pub report_archive : World → String → UnpackBudget → ScanContext → Run
report_archive w stage budget ctx =
    let (inventory, budget') =
      inspect w.extension w.human (w.entries_of ctx.path) budget ctx.depth true in
    and_then (report w.summary stage inventory (with_budget budget' ctx))
      (λ c. ran (record c { members = inventory.members }))

-- What `analyse` does once it has tried to open the archive.
unfoldable pub analyse_opened : World → String → UnpackBudget → ScanContext → Outcome → Run
unfolding report_archive
analyse_opened w stage budget ctx ok = report_archive w stage budget ctx
analyse_opened w stage budget ctx (raised budget_exceeded) =
    mark_incomplete stage (w.open_failure ctx.path) (with_budget budget ctx)
analyse_opened w stage budget ctx (raised unreadable) =
    mark_malformed stage (w.open_failure ctx.path) (with_budget budget ctx)
analyse_opened w stage budget ctx (thrown e) = threw (with_budget budget ctx)

-- `analyse`
unfoldable pub analyse : World → String → ScanContext → Run
unfolding analyse_opened
analyse w stage ctx =
    analyse_opened w stage (budget_for w ctx) ctx
      (open_archive (w.end_record ctx.path) (w.zip_error ctx.path))

-- `job.model_copy(update=...)` of `_scan_members`
abbrev pub member_job : ScanJob → ScanJob
member_job job = record job { filename_ext = none; declared_mime = none; cached = none }

-- The context of a member, with the budget of the tree and the weights of the container.
abbrev pub child_of : World → Member → UnpackBudget → ScanContext → ScanContext
child_of w m budget ctx = record {
  job = member_job ctx.job;
  path = w.place ctx.path m;
  detected_mime = none;
  detected_ext = none;
  findings = [];
  weights = ctx.weights;
  failed_stages = [];
  encrypted = false;
  supported = true;
  budget = some budget;
  depth = suc ctx.depth;
  members = [];
}

-- `f"вложение {member.label}"`
abbrev pub member_text : World → Member → String
member_text w m =
    append "вложение " (label w.extension w.human m.index (w.extension m.info.filename))

abbrev pub failure_text : World → Member → String → String
failure_text w m failure = append (member_text w m) (append ": " failure)

-- The budget and the notes of the weight table are one object for the whole tree: what the member
-- did to them is seen in the container.
abbrev pub take_back : UnpackBudget → ScanContext → ScanContext → ScanContext
take_back budget child ctx = record ctx {
  budget = some (elim child.budget [ none ↦ budget | some b ↦ b ]);
  weights = record ctx.weights { unknown_codes = child.weights.unknown_codes };
}

-- A call that ends the loop, or lets it go on.
abbrev pub settle_run : Run → Trace → Result (ScanContext × Trace)
settle_run (ran ctx) t = returned (ctx, t)
settle_run (threw ctx) t = escaped

module _ (w : World) (stages : List Stage)
    (inner : ScanContext → Trace → Result (ScanContext × Trace)) where
  -- The stages on a member, and then what is inside it. Its timings are dropped, its marks are not.
  unfoldable pub check_member :
      Member → UnpackBudget → ScanContext → Trace → Result (ScanContext × Trace)
  check_member m budget ctx t = do
    (c, t') ← run_stages stages (child_of w m budget ctx) (record t { timings = [] })
    (c', t'') ← inner c t'
    returned (c', record t'' { timings = t.timings })

  abbrev pub extraction_of : Member → UnpackBudget → ScanContext → Extraction
  extraction_of m budget ctx =
      let r = w.read ctx.path m.info in
      extract r.entries r.zip_error r.chunks r.read_error m.info budget

  -- How the loop goes on once a member is unpacked, or is not. An exception that is no `ArchiveError`
  -- leaves the pipeline.
  unfoldable pub after_extract :
      Member
      → UnpackBudget
      → Outcome
      → ScanContext
      → Trace
      → (ScanContext → Trace → Result (ScanContext × Trace))
      → Result (ScanContext × Trace)
  unfolding check_member
  after_extract m budget ok ctx t continue = do
    (c, t') ← check_member m budget ctx t
    continue (adopt c (member_text w m) (take_back budget c ctx)) t'
  after_extract m budget (raised budget_exceeded) ctx t continue =
      settle_run
        (mark_incomplete "archive" (failure_text w m (w.read ctx.path m.info).failure)
          (with_budget budget ctx))
        t
  after_extract m budget (raised unreadable) ctx t continue =
      settle_run
        (mark_malformed "archive" (failure_text w m (w.read ctx.path m.info).failure)
          (with_budget budget ctx))
        t
      >>= (λ (c, t'). continue c t')
  after_extract m budget (thrown e) ctx t continue = escaped

  -- One round of the loop of `_scan_members`, where the tree has a budget.
  unfoldable pub visit :
      Member
      → (ScanContext → Trace → Result (ScanContext × Trace))
      → Option UnpackBudget
      → ScanContext
      → Trace
      → Result (ScanContext × Trace)
  unfolding after_extract
  visit m continue none ctx t = escaped
  visit m continue (some budget) ctx t =
      let rest =
        after_extract m (extraction_of m budget ctx).budget (extraction_of m budget ctx).outcome ctx
          t continue in
      if stops ctx
      then returned (ctx, t)
      else if w.expired ctx.path m
      then settle_run (mark_incomplete "archive" "время на проверку вложений вышло" ctx) t
      else rest

  -- `_scan_members`
  unfoldable pub scan_members : List Member → ScanContext → Trace → Result (ScanContext × Trace)
  unfolding visit
  scan_members [] ctx t = returned (ctx, t)
  scan_members (m ∷ ms) ctx t = visit m (scan_members ms) ctx.budget ctx t

abbrev pub is_none : Option UnpackBudget → Bool
is_none none = true
is_none (some b) = false

abbrev has_none : List Member → Bool
has_none [] = true
has_none (m ∷ ms) = false

-- `not ctx.members or ctx.budget is None or ctx.depth > MAX_ARCHIVE_DEPTH`
abbrev pub is_flat : ScanContext → Bool
is_flat ctx = has_none ctx.members || is_none ctx.budget || ltb max_archive_depth ctx.depth

-- The timing of the archive, which only the root has.
abbrev pub close_archive : ScanContext → ScanContext × Trace → ScanContext × Trace
close_archive ctx (c, t) = (
  c,
  if ctx.depth == 0 then note_timing "archive" (not (contains "archive" c.failed_stages)) t else t,
)

-- `_expand`. The fuel bounds the recursion that the source bounds by the depth.
unfoldable pub expand : World → List Stage → ℕ → ScanContext → Trace → Result (ScanContext × Trace)
unfolding scan_members
expand w stages zero ctx t = out_of_fuel
expand w stages (suc fuel) ctx t = elim (is_flat ctx) [
  | true ↦ returned (ctx, t)
  | false ↦ do
    r ← scan_members w stages (expand w stages fuel) ctx.members ctx (mark "archive" t)
    returned (close_archive ctx r)
]
