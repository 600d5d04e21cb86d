-- ===== src/Queues/Tests.antt =====
-- A small queue of dead letters (packages/vscommon/queue.py), and the theorem about it.
use vulnscan.Base.{String, Option, none, some, List, [], ◌∷◌, keep, ◌≡◌, refl, arith}
use vulnscan.Risk.Model.{Verdict}
use vulnscan.Notifier.Model.{DeadLetter, scan_failed}
use vulnscan.Queues.{
  EntryId, is_within, take, IsOrdered, Stream, collect, recent_from, recent, select,
}
use vulnscan.Queues.Recent.{recent-select}

-- A stream that is a list.
abbrev of_list : {Raw : Type 0} (entries : List (EntryId × Raw)) → IsOrdered entries → Stream Raw
of_list entries o = record {
  entries = entries;
  xrevrange = λ max count. take count (keep (λ row. is_within max row.0) entries);
  ordered = o;
  xrevrange_law = λ max count. refl;
}

abbrev letter : String → String → DeadLetter
letter scan_id tenant = record {
  scan_id = scan_id;
  sha256 = "ab";
  reason = scan_failed;
  verdict = Verdict.suspicious;
  detail = none;
  stage = none;
  delivered = none;
  tenant = some tenant;
  source = "raw/a";
}

-- The entry in the middle is damaged, the last one is another tenant's.
abbrev rows : List (EntryId × Option DeadLetter)
rows =
    (record { ms = 7; seq = 1 }, some (letter "s3" "acme"))
    ∷ (record { ms = 7; seq = 0 }, none)
    ∷ (record { ms = 6; seq = 0 }, some (letter "s2" "acme"))
    ∷ (record { ms = 5; seq = 4 }, some (letter "s1" "umbrella"))
    ∷ []

abbrev queue : Stream (Option DeadLetter)
queue = of_list rows (
  omega arith,
  omega arith,
  (refl, (refl, (refl, tt))),
  (
    omega arith,
    omega arith,
    (refl, (refl, tt)),
    (omega arith, omega arith, (refl, tt), (omega arith, omega arith, tt, tt)),
  ),
)

newest : recent (λ r. r) 1 (some "acme") queue 5 ≡ letter "s3" "acme" ∷ []
unfolding recent recent_from collect
newest = refl

recent-select_example :
    recent (λ r. r) 50 (some "acme") queue 5 ≡ take 50 (select (λ r. r) (some "acme") rows)
recent-select_example = recent-select (λ r. r) 50 (some "acme") queue 5 (omega arith)
