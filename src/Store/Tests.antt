-- ===== src/Store/Tests.antt =====
-- Concrete stores, and the theorems about the store applied to them.
use brunost_judge.Prelude.{
  ℕ, String, ◌≡◌, ◌≢◌, refl, Bool, true, false, Option, none, some, List, [], ◌∷◌, All, arith, ◌==◌,
  eq_iff, ◌*◌, ◌^◌, ◌≤◌, min, ◌⊎◌,
}
use brunost_judge.Prelude.Int.{pos}
use brunost_judge.Json.{int, null, num, obj, end}
use brunost_judge.Platform.{Platform, digest_secret}
use brunost_judge.Contracts.{TaskRecord}
use brunost_judge.Store.Registry.{task_of, insert_task, register_task, get_task}
use brunost_judge.Store.Registry.Tasks.{AgreesWith, registered_task_is_kept, registration_is_found}
use brunost_judge.Store.Credentials.{
  token_fields, consume_enrollment_token, verify_worker_token, revoke_worker_credential,
  create_worker_credential,
}
use brunost_judge.Store.Credentials.Tokens.{
  token_is_single_use, revoked_worker_is_refused, issued_token_decides,
}
use brunost_judge.Store.Steps.{store_after}
use brunost_judge.Contracts.{Status, ExecutionRequest, ExecutionResult}
use brunost_judge.Sql.{first_where, exists_where}
use brunost_judge.Store.{TaskRow, Execution, Delivery, JudgeStore, empty_store, find_execution}
use brunost_judge.Store.{ok, err, idempotency_conflict, is_queued}
use brunost_judge.Text.{is_blank}
use brunost_judge.Contracts.{is_terminal, as_dict}
use brunost_judge.Conformance.{validate_result_payload}
use brunost_judge.Store.Submit.{submit, result_of, request_fingerprint}
use brunost_judge.Store.Finish.{finish, finished, finish_update, validate_finish_result}
use brunost_judge.Conformance.Accepted.Shape.{IsResult}
use brunost_judge.Conformance.Accepted.{accepted-IsResult}
use brunost_judge.Store.Finish.Published.{NamesExecution, published-IsResult}
use brunost_judge.Store.Finish.Fencing.{finish_by_holder}
use brunost_judge.Store.Claim.{
  claim_next, expire_leases, lease_row, scan_pages, first_compatible, is_compatible,
}
use brunost_judge.Store.Claim.Scan.{scan_pages-eq-first_compatible}
use brunost_judge.Store.Claim.Choice.{Choice, claim_leases_best}
use brunost_judge.Store.Deliveries.{
  claim_callback, mark_callback_delivered_by_owner, mark_callback_failed, retry_delay,
  pending_callbacks,
}
use brunost_judge.Store.Deliveries.Exclusive.{claim_is_exclusive, only_owner_acknowledges}
use brunost_judge.Store.Deliveries.Backoff.{retry_delay_bounds, failed_delivery_waits}
use brunost_judge.Store.Lifecycle.{SameOutcome, Evolves}
use brunost_judge.Store.Lifecycle.Course.{IsCourse, run-IsCourse}
use brunost_judge.Store.Lifecycle.History.{terminal_is_final, cancellation_wins}
use brunost_judge.Store.Idempotency.{retry_is_idempotent, other_request_conflicts}
use brunost_judge.Store.Outbox.{HasOutbox}
use brunost_judge.Store.Outbox.History.{run-HasOutbox}
use brunost_judge.Store.Rows.{IsRow, AllRows, is_known, lease_fits, run-AllRows}
use brunost_judge.Store.Keys.{IsKeyed, run-IsKeyed}
use brunost_judge.Store.Steps.{Call, run}

abbrev lib : Platform
lib = record {
  dumps = λ fs. "{}";
  sha256 = λ text. text;
  parse_time = λ text. none;
  real = λ score. some score;
}

abbrev task : TaskRow
task = record {
  task_ref = "sum";
  path = "tasks/sum";
  kind = "classic";
  manifest = end;
  created_at = 1;
}

abbrev row : String → Status → Bool → Option String → Option ℕ → Execution
row i status canceling worker lease = record {
  execution_id = i;
  idempotency_key = i;
  task_ref = "sum";
  submission_path = "main.py";
  callback_url = some "https://contest/hook";
  callback_token = none;
  request_fingerprint = "{}";
  metadata = end;
  status = status;
  score = null;
  metrics = obj end;
  scores = obj end;
  winner = null;
  artifacts = obj end;
  failure_reason = null;
  created_at = 2;
  updated_at = 2;
  cancel_requested = canceling;
  queue = "default";
  resource_class = "cpu";
  priority = pos 0;
  worker_id = worker;
  lease_expires_at = lease;
}

abbrev waiting : Execution
waiting = row "a" Status.queued false none none

abbrev at_work : Execution
at_work = row "b" Status.running false (some "w1") (some 100)

abbrev canceling : Execution
canceling = row "c" Status.running true (some "w2") (some 100)

abbrev ended : Execution
ended = row "d" Status.completed false none none

abbrev delivery : Delivery
delivery = record {
  execution_id = "d";
  callback_url = "https://contest/hook";
  callback_token = none;
  attempts = 0;
  next_attempt_at = 5;
  delivered_at = none;
  last_error = none;
  lease_owner = none;
  lease_expires_at = none;
}

abbrev base : JudgeStore
base = record empty_store {
  tasks = task ∷ [];
  executions = waiting ∷ at_work ∷ canceling ∷ ended ∷ [];
  callback_deliveries = delivery ∷ [];
}

abbrev request : ExecutionRequest
request = record {
  task_ref = "sum";
  submission_path = "main.py";
  idempotency_key = "a";
  callback_url = none;
  callback_token = none;
  metadata = end;
  queue = "default";
  resource_class = "cpu";
  priority = pos 0;
  timeout_seconds = none;
}

abbrev result : ExecutionResult
result = record {
  execution_id = "b";
  task_ref = "sum";
  status = Status.completed;
  score = num (int (pos 1));
  metrics = obj end;
  failure_reason = null;
  metadata = end;
  result_version = 1;
  judge_version = "local";
  queue = "default";
  resource_class = "cpu";
  priority = pos 0;
  task_digest = null;
  evaluator = null;
  runtime_image = null;
  seed = null;
  event_id = null;
  scores = obj end;
  winner = null;
  artifacts = obj end;
}

differs : (a b : String) → (a == b) ≡ false → a ≢ b
differs a b h = ground (arith, eq_iff a b)

abbrev calls : List Call
calls =
    Call.submit "e" 6 (record request { idempotency_key = "e" })
    ∷ Call.finish "b" result "w1" 7 8
    ∷ Call.claim_next "w3" [] [] [] 60 200
    ∷ Call.cancel "d" 300 300
    ∷ []

base-IsKeyed : IsKeyed base
unfolding exists_where
base-IsKeyed = record {
  execution_ids = (refl, (refl, (refl, (refl, tt))));
  idempotency_keys = (refl, (refl, (refl, (refl, tt))));
  deliveries = (refl, tt);
}

base-HasOutbox : HasOutbox base
unfolding exists_where
base-HasOutbox = (
  (λ h u. absurd (cc h)),
  ((λ h u. absurd (cc h)), ((λ h u. absurd (cc h)), ((λ h u. refl), tt))),
)

plain-IsRow :
    (e : Execution)
    → e.score ≡ null
    → e.scores ≡ obj end
    → e.winner ≡ null
    → e.artifacts ≡ obj end
    → e.metrics ≡ obj end
    → e.failure_reason ≡ null
    → is_known e.status ≡ true
    → lease_fits e ≡ true
    → (is_queued e.status ≡ true → e.cancel_requested ≡ false)
    → IsRow e
plain-IsRow e score scores winner artifacts metrics reason known lease live = record {
  known = known;
  lease = lease;
  queue_is_live = live;
  no_score_yet = λ h. score;
  no_scores_yet = λ h. scores;
  no_winner_yet = λ h. winner;
  no_artifacts_yet = λ h. artifacts;
  no_metrics_yet = λ h. metrics;
  no_reason_yet = λ h. reason;
}

base-AllRows : AllRows base
base-AllRows = (
  plain-IsRow waiting refl refl refl refl refl refl refl refl (λ h. refl),
  (
    plain-IsRow at_work refl refl refl refl refl refl refl refl (λ h. refl),
    (
      plain-IsRow canceling refl refl refl refl refl refl refl refl (λ h. absurd (cc h)),
      (plain-IsRow ended refl refl refl refl refl refl refl refl (λ h. refl), tt),
    ),
  ),
)

run-IsCourse_example : IsCourse lib calls base
run-IsCourse_example = run-IsCourse lib calls base base-IsKeyed

terminal_is_final_example :
    (f : Execution) × (find_execution "d" (run lib calls base) ≡ some f) × SameOutcome ended f
terminal_is_final_example =
    terminal_is_final lib calls base "d" ended base-IsKeyed (unfold first_where in refl) refl

cancellation_wins_example :
    (f : Execution) × (find_execution "c" (run lib calls base) ≡ some f)
    × ((is_terminal f.status ≡ false) ⊎ (f.status ≡ Status.canceled))
cancellation_wins_example =
    cancellation_wins lib calls base "c" canceling base-IsKeyed (unfold first_where in refl) refl
      refl

run-HasOutbox_example : HasOutbox (run lib calls base)
run-HasOutbox_example = run-HasOutbox lib calls base base-IsKeyed base-HasOutbox

run-AllRows_example : AllRows (run lib calls base)
run-AllRows_example = run-AllRows lib calls base base-IsKeyed base-AllRows

run-IsKeyed_example : IsKeyed (run lib calls base)
run-IsKeyed_example = run-IsKeyed lib calls base base-IsKeyed

result_is_valid : validate_finish_result lib "b" "sum" result ≡ ok tt
unfolding validate_finish_result validate_result_payload as_dict
result_is_valid = refl

finish_by_holder_example :
    finish lib "b" result "w1" 50 51 base
    ≡ ok (some (result_of (finished result 50 at_work)), finish_update "b" result "w1" 50 51 base)
finish_by_holder_example =
    finish_by_holder "b" "w1" 50 base at_work base-IsKeyed (unfold first_where in refl) lib result
      51 (unfold is_blank in refl) refl result_is_valid

retry_is_idempotent_example :
    (f : Execution) × Evolves waiting f
    × (submit lib "f" 400 request (run lib calls base)
        ≡ ok (some (result_of f), run lib calls base))
retry_is_idempotent_example =
    retry_is_idempotent lib base waiting task request calls base-IsKeyed
      (unfold first_where in refl) (unfold first_where in refl) "f" 400
      (unfold request_fingerprint in refl)

salted : Platform
salted = record lib { sha256 = λ text. "9f" }

other_request_conflicts_example :
    submit salted "f" 400 request (run salted calls base) ≡ err idempotency_conflict
unfolding salted
other_request_conflicts_example =
    other_request_conflicts salted base waiting task request calls base-IsKeyed
      (unfold first_where in refl) (unfold first_where in refl) "f" 400 (differs "{}" "" refl)
      (unfold request_fingerprint in differs "{}" "9f" refl)

claim_leases_best_example :
    Choice "w3" [] [] [] 60 200
      (expire_leases 200 base)
      (lease_row "w3" 60 200 (expire_leases 200 base) (some waiting)).1
claim_leases_best_example =
    claim_leases_best "w3" [] [] [] 60 200 base
      (lease_row "w3" 60 200 (expire_leases 200 base) (some waiting)).0
      (lease_row "w3" 60 200 (expire_leases 200 base) (some waiting)).1 base-IsKeyed claims
  where
    claims :
        claim_next "w3" [] [] [] 60 200 base
        ≡ ok (lease_row "w3" 60 200 (expire_leases 200 base) (some waiting))
    claims = unfold claim_next in refl

scan_pages-eq-first_compatible_example :
    scan_pages 5 (is_compatible [] base) (waiting ∷ at_work ∷ canceling ∷ ended ∷ []) 0
    ≡ first_compatible (is_compatible [] base) (waiting ∷ at_work ∷ canceling ∷ ended ∷ [])
scan_pages-eq-first_compatible_example =
    scan_pages-eq-first_compatible (is_compatible [] base)
      (waiting ∷ at_work ∷ canceling ∷ ended ∷ [])

claim_is_exclusive_example :
    (claim_callback "d" "w2" 60 7 (claim_callback "d" "w1" 60 6 base).1).0 ≡ false
claim_is_exclusive_example =
    claim_is_exclusive "d" "w2" "w1" 60 60 6 7 base base-IsKeyed (omega arith)
      (unfold claim_callback in refl)

only_owner_acknowledges_example :
    mark_callback_delivered_by_owner "d" "w2" 7 (claim_callback "d" "w1" 60 6 base).1
    ≡ (false, (claim_callback "d" "w1" 60 6 base).1)
only_owner_acknowledges_example =
    only_owner_acknowledges "d" "w2" "w1" 60 6 7 base base-IsKeyed (differs "w1" "w2" refl)
      (unfold claim_callback in refl)

retry_delay_bounds_example :
    (5 ≤ retry_delay 3)
    × (retry_delay 3 ≤ 1280)
    × (retry_delay 3 ≡ 5 * 2 ^ min 8 3)
    × (retry_delay 3 ≤ retry_delay 4)
retry_delay_bounds_example = retry_delay_bounds 3

failed_delivery_waits_example :
    All
      (λ d. d.execution_id ≢ "d")
      (pending_callbacks 9 10 (mark_callback_failed "d" "timeout" none 6 base).1)
failed_delivery_waits_example =
    failed_delivery_waits "d" "timeout" none 6 9 10 base base-IsKeyed
      (unfold mark_callback_failed in refl) (omega arith)

registered_task_is_kept_example :
    get_task "sum"
      (store_after base (register_task 9 (record (task_of task) { path = "other" }) base))
    ≡ some (task_of task)
registered_task_is_kept_example =
    registered_task_is_kept 9 (record (task_of task) { path = "other" }) (task_of task) "sum" base
      (unfold get_task in refl)

abbrev second_task : TaskRecord
second_task = record { task_ref = "max"; path = "tasks/max"; kind = "classic"; manifest = end }

registration_is_found_example :
    (f : TaskRecord) × (get_task "max" (insert_task 9 second_task base) ≡ some f)
    × AgreesWith second_task f
registration_is_found_example =
    registration_is_found 9 second_task second_task base (insert_task 9 second_task base)
      (unfold register_task in refl)

abbrev enrolling : JudgeStore
enrolling = record base {
  workers =
      record {
        worker_id = "w1";
        capabilities = [];
        queues = [];
        resource_classes = [];
        region = none;
        status = "ready";
        draining = false;
        metadata = end;
        last_seen = 1;
      }
      ∷ [];
  enrollment_tokens =
      record {
        token_id = "t1";
        token_hash = "secret";
        payload = end;
        expires_at = "soon";
        used_at = none;
        created_at = 1;
      }
      ∷ [];
  service_credentials =
      record {
        credential_id = "s1";
        name = "portal";
        token_hash = "secret";
        scopes = "judge:read" ∷ [];
        expires_at = none;
        created_at = 1;
        revoked_at = none;
      }
      ∷ [];
}

-- times are read here as 500 whatever is written
abbrev clocked : Platform
clocked = record lib { parse_time = λ text. some 500; real = λ score. some score }

token_is_single_use_example :
    consume_enrollment_token clocked "secret" 20 21
      (consume_enrollment_token clocked "secret" 10 11 enrolling).1
    ≡ (none, (consume_enrollment_token clocked "secret" 10 11 enrolling).1)
token_is_single_use_example =
    token_is_single_use clocked "secret" 10 11 20 21 enrolling (token_fields "t1" end "soon")
      (consume_enrollment_token clocked "secret" 10 11 enrolling).1
      (unfold exists_where in (refl, tt)) (unfold consume_enrollment_token in refl)

revoked_worker_is_refused_example :
    verify_worker_token lib "w1" "secret" (revoke_worker_credential "w1" 5 enrolling).1 ≡ false
revoked_worker_is_refused_example = revoked_worker_is_refused lib "w1" "secret" 5 enrolling

issued : JudgeStore
issued = store_after enrolling (create_worker_credential lib "w1" "secret" 5 enrolling)

issued_token_decides_example :
    verify_worker_token lib "w1" "guess" issued
    ≡ (digest_secret lib "secret" == digest_secret lib "guess")
issued_token_decides_example =
    issued_token_decides lib "w1" "secret" "guess" 5 enrolling issued
      (unfold issued in unfold create_worker_credential in refl)

accepted-IsResult_example : IsResult lib (as_dict result)
accepted-IsResult_example =
    accepted-IsResult lib (as_dict result)
      (unfold validate_result_payload in unfold as_dict in refl)

published-IsResult_example :
    (is_terminal result.status ≡ true)
    × NamesExecution "b" result base
    × IsResult lib (as_dict result)
published-IsResult_example =
    published-IsResult lib "b" "w1" result (result_of (finished result 50 at_work)) 50 51 base
      (finish_update "b" result "w1" 50 51 base) finishes
  where
    finishes :
        finish lib "b" result "w1" 50 51 base
        ≡ ok (
          some (result_of (finished result 50 at_work)),
          finish_update "b" result "w1" 50 51 base,
        )
    finishes =
        finish_by_holder "b" "w1" 50 base at_work base-IsKeyed (unfold first_where in refl) lib
          result 51 (unfold is_blank in refl) refl result_is_valid
