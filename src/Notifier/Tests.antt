-- ===== src/Notifier/Tests.antt =====
-- Runs of the notifier (services/notifier/notifierapp/main.py) on small inputs, and each theorem at an
-- input that meets its hypotheses.
use vulnscan.Base.{
  ℕ, ◌+◌, ◌-◌, ◌≤◌, String, true, false, none, some, List, [], ◌∷◌, ◌≡◌, refl, arith, length,
}
use vulnscan.Notifier.Model.{
  CallbackTask, DeliveryTask, Settings, Queues, publish, validate, backoff,
}
use vulnscan.Notifier.Callbacks.{SendOutcome, give_up, reschedule, attempt_callback, follow}
use vulnscan.Notifier.Callbacks.Laws.{
  AllWaiting, AllShort, attempt_callback-AllWaiting, dlq-attempt_callback, follow-ends,
}
use vulnscan.Notifier.Copies.{
  Upload, Stores, ok, fails, put_manifest_after, put, delivery_lost, retry_delivery, deliver,
}
use vulnscan.Notifier.Copies.Laws.{IsOrdered, deliver-IsOrdered}

program : Unit {0}
unfolding publish validate backoff give_up reschedule attempt_callback follow put_manifest_after put
    delivery_lost retry_delivery deliver
program = tt

abbrev settings : Settings
settings = record { max_attempts = 10; base_backoff_s = 2; max_backoff_s = 600 }

abbrev host : String → String
host _ = "client.example"

abbrev task : CallbackTask
task = record {
  scan_id = "s1";
  tenant = none;
  key_id = "k";
  url = "https://client.example/r";
  payload = "{}";
  attempt = 0;
}

abbrev no_answer : ℕ → SendOutcome
no_answer _ = record { delivered = false; retryable = true; detail = "timeout" }

abbrev empty : {Task : Type 0} → Queues Task
empty = record { retries = []; dlq = [] }

-- A receiver that never answers is tried ten times, over nine delays.
follow_delays :
    follow host settings no_answer 10 task ≡ some (2 ∷ 4 ∷ 8 ∷ 16 ∷ 32 ∷ 64 ∷ 128 ∷ 256 ∷ 512 ∷ [])
unfolding program
follow_delays = refl

attempt_callback-AllWaiting_example :
    AllWaiting settings (attempt_callback host settings (no_answer 0) task empty).retries
attempt_callback-AllWaiting_example =
    attempt_callback-AllWaiting host settings (no_answer 0) task empty tt

dlq-attempt_callback_example :
    (attempt_callback host settings (no_answer 0) (record task { attempt = 9 }) empty).dlq ≡ []
dlq-attempt_callback_example =
    dlq-attempt_callback host settings (no_answer 0) (record task { attempt = 9 }) empty

follow-ends_example :
    (delays : List ℕ) × (follow host settings no_answer 10 task ≡ some delays)
    × (length delays ≤ settings.max_attempts - (task.attempt + 1))
    × AllShort host settings delays
follow-ends_example = follow-ends host settings no_answer 10 task (omega arith) (omega arith)

abbrev copy : DeliveryTask
copy = record {
  scan_id = "s1";
  tenant = none;
  destination = record {
    endpoint = "";
    bucket = "b";
    prefix = "";
    region = "";
    credentials_id = "c";
    key_template = "";
  };
  artifact = some "s1.pdf";
  name = "s1.pdf";
  rebuilt_from_blocked = true;
  payload = "{}";
  attempt = 0;
}

-- The manifest does not get through.
abbrev stores : Stores
stores = record { fetch = ok; put_file = ok; put_manifest = fails "503" }

deliver_file :
    (deliver settings (λ _. "1") true stores copy empty).0 ≡ Upload.file "_rebuilt/s1.pdf" ∷ []
unfolding program
deliver_file = refl

deliver-IsOrdered_example : IsOrdered copy (deliver settings (λ _. "1") true stores copy empty).0
deliver-IsOrdered_example = deliver-IsOrdered settings (λ _. "1") true stores copy empty
