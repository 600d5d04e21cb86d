-- ===== src/Worker/Tests.antt =====
-- Jobs in the hands of the worker (services/worker/worker_app/main.py) on small inputs, and each theorem
-- at an input that meets its hypotheses.
use vulnscan.Base.{true, false, none, some, [], ◌∷◌, ◌≡◌, refl}
use vulnscan.Risk.Model.{clean, done, ScanMode, CdrProfile, default_policy, is_terminal}
use vulnscan.Scan.Model.{ScanJob}
use vulnscan.Scan.Process.{ScanResult}
use vulnscan.Worker.Failures.{Error, classify, should_retry}
use vulnscan.Worker.Redis.{
  set_status, works, loses, Redis, ask_with, read, write, status_in, attempt_in, is_acked,
}
use vulnscan.Worker.Deep.{deep_reason, deep_job}
use vulnscan.Worker.Notify.{Env, enqueue_callback, enqueue_delivery}
use vulnscan.Worker.Deliver.{
  record_history, publish, store_facts, store_cache, maybe_enqueue_deep, note_if_shadow, follow_up,
  deliver_fast, deliver,
}
use vulnscan.Worker.Deliver.Status.{has_status}
use vulnscan.Worker.Works.{calm}
use vulnscan.Worker.Handle.{
  answered, broke, Run, report_all, run_pipeline, conclude, try_scan, scan_after, scan_anew,
  handle_after, handle_kept, handle,
}
use vulnscan.Worker.Handle.Laws.{log_of}
use vulnscan.Worker.Handle.Acks.{handle-acked}
use vulnscan.Worker.Handle.Ends.{handle-done}
use vulnscan.Worker.Handle.Marks.{crash}
use vulnscan.Worker.Handle.Crashes.{after_crashes, crashes-end}
use vulnscan.Worker.Handle.Retries.{outputs, handle-retried}
use vulnscan.Worker.Handle.Finished.{handle-finished}
use vulnscan.Worker.Handle.Slots.{releases, handle-keeps_slot}
use vulnscan.Worker.Handle.Queues.{deep_jobs, handle-deep}

abbrev env : Env
env = record {
  deep_mode = false;
  deep_enabled = true;
  drawn = false;
  fresh = "d1";
  max_parser_crashes = 2;
  dlq_status_ttl_s = 604800;
  rules_version = "r1";
  engine_version = "v1";
  dump = λ r. r.scan_id;
  object_name = λ d j r. some r.scan_id;
}

abbrev job : ScanJob
job = record {
  scan_id = "s1";
  sha256 = "ab";
  filename_ext = some ".pdf";
  declared_mime = none;
  mode = ScanMode.both;
  profile = CdrProfile.standard;
  policy = default_policy;
  tenant = some "acme";
  cached = none;
  deep = false;
  deep_reason = "";
  parent_scan_id = "";
  source = "raw/s1";
  size = 1000;
  filename = none;
  callback_url = some "https://acme.example/cb";
  key_id = "k1";
}

abbrev result : ScanResult
result = record {
  scan_id = "s1";
  sha256 = "ab";
  status = done;
  verdict = clean;
  score = 0;
  findings = [];
  sanitized = none;
  stages = [];
  facts = none;
  shadow = false;
  allowlisted = false;
  deep = false;
  parent_scan_id = "";
}

abbrev good_run : Run
good_run = record { stages = "filetype" ∷ "structure" ∷ []; outcome = answered result }

-- The answer to the write of the history is lost, which `_record_history` survives.
abbrev shaky : Redis
shaky = record {
  log = [];
  plan = works ∷ works ∷ works ∷ works ∷ works ∷ works ∷ works ∷ loses ∷ [];
}

handle-acked_example : has_status "s1" (log_of (handle env good_run "e1" job shaky)) ≡ true
unfolding is_acked handle handle_kept handle_after status_in scan_anew scan_after attempt_in
    try_scan run_pipeline report_all conclude deliver record_history deliver_fast publish follow_up
    store_cache store_facts maybe_enqueue_deep deep_reason note_if_shadow enqueue_callback
    enqueue_delivery write read ask_with
handle-acked_example = handle-acked env good_run "e1" job shaky refl refl refl

handle-done_example : is_acked "e1" (log_of (handle env good_run "e1" job (calm []))) ≡ true
unfolding handle
handle-done_example = handle-done env good_run "e1" job [] refl

-- Two deaths inside the parser are admitted.
crashes-end_example :
    (is_acked "e1" (after_crashes env "e1" job ("structure" ∷ []) 2 []) ≡ false)
    × (is_acked "e1" (after_crashes env "e1" job ("structure" ∷ []) 3 []) ≡ true)
    × (has_status "s1" (after_crashes env "e1" job ("structure" ∷ []) 3 []) ≡ true)
unfolding status_in attempt_in is_acked
crashes-end_example = crashes-end env "e1" job ("structure" ∷ []) 1 [] refl refl refl refl refl

abbrev broken_store : Error
broken_store = record {
  is_content_type = false;
  is_infra_type = false;
  root = "botocore";
  name = "EndpointConnectionError";
}

abbrev bad_run : Run
bad_run = record { stages = "filetype" ∷ []; outcome = broke broken_store }

handle-retried_example : outputs (log_of (handle env bad_run "e1" job shaky)) ≡ []
unfolding should_retry classify status_in attempt_in
handle-retried_example = handle-retried env bad_run "e1" job broken_store shaky refl refl refl refl

-- The first handling has stored the status and no more.
abbrev half_done : Redis
half_done = record { log = set_status result 300 ∷ []; plan = [] }

handle-finished_example :
    handle env good_run "e1" job half_done ≡ handle env (crash []) "e1" job half_done
unfolding status_in is_terminal
handle-finished_example =
    handle-finished env good_run (crash []) "e1" job result half_done refl refl

handle-keeps_slot_example : releases (log_of (handle env good_run "e1" job half_done)) ≡ []
unfolding status_in is_terminal releases
handle-keeps_slot_example = handle-keeps_slot env good_run "e1" job result half_done refl refl

abbrev second_job : ScanJob
second_job = deep_job job "серая зона" "d1"

handle-deep_example : deep_jobs (log_of (handle env good_run "e1" second_job (calm []))) ≡ []
unfolding deep_job deep_jobs
handle-deep_example = handle-deep env good_run "e1" second_job (calm []) refl
