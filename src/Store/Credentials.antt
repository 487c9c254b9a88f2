-- ===== src/Store/Credentials.antt =====
-- Enrollment tokens, worker and service credentials, and the audit log of
-- src/brunost_judge/store.py. Only digests of tokens are stored. `hmac.compare_digest` is equality.
pub mod Tokens
use brunost_judge.Prelude.{
  ℕ, zero, suc, ◌+◌, ◌≤◌, String, Bool, true, false, not, ◌&&◌, ◌||◌, Option, none, some, List, [],
  ◌∷◌, ◌++◌, map, take, drop, min, max, leb, ltb, contains, ◌==◌, if◌then◌else◌,
}
use brunost_judge.Json.{Json, str, Fields, end, field, put}
use brunost_judge.Platform.{Platform, digest_secret, is_expired}
use brunost_judge.Sql.{select_where, first_where, update_where, rowcount, exists_where, order_by}
use brunost_judge.Sql.Order.{text_leb}
use brunost_judge.Store.{
  Result, ok, err, integrity_error, EnrollmentRow, WorkerCredential, ServiceCredential, AuditEvent,
  JudgeStore, truthy_text,
}
use brunost_judge.Store.Registry.{put_all, is_worker}

abbrev pub is_unset : Option ℕ → Bool
is_unset none = true
is_unset (some t) = false

-- `{"token_id": ..., **payload, "expires_at": ...}`
unfoldable pub token_fields : String → Fields → String → Fields
unfolding put_all put
token_fields i payload expires =
    put "expires_at" (str expires) (put_all payload (field "token_id" (str i) end))

-- `create_enrollment_token`; the identifier and the digest are unique columns
unfoldable pub create_enrollment_token :
    String → String → Fields → String → ℕ → JudgeStore → Result (Fields × JudgeStore)
unfolding exists_where token_fields
create_enrollment_token i hash payload expires now s =
    if exists_where (λ t. t.token_id == i || t.token_hash == hash) s.enrollment_tokens
    then err integrity_error
    else ok (
      token_fields i payload expires,
      record s {
        enrollment_tokens =
            s.enrollment_tokens
            ++ record {
              token_id = i;
              token_hash = hash;
              payload = payload;
              expires_at = expires;
              used_at = none;
              created_at = now;
            }
              ∷ [];
      },
    )

-- token_hash=? AND used_at IS NULL
abbrev pub is_usable : String → EnrollmentRow → Bool
is_usable hash t = t.token_hash == hash && is_unset t.used_at

-- `row is None or is_expired(row["expires_at"])`
unfoldable pub usable_token : Platform → String → ℕ → JudgeStore → Option EnrollmentRow
unfolding first_where is_expired digest_secret
usable_token lib token now s =
    elim (first_where (is_usable (digest_secret lib token)) s.enrollment_tokens) [
      | none ↦ none
      | some t ↦ if is_expired lib now t.expires_at then none else some t
    ]

-- `get_enrollment_token`
unfoldable pub get_enrollment_token : Platform → String → ℕ → JudgeStore → Option Fields
unfolding usable_token token_fields
get_enrollment_token lib token now s = elim (usable_token lib token now s) [
  | none ↦ none
  | some t ↦ some (token_fields t.token_id t.payload t.expires_at)
]

-- token_id=? AND used_at IS NULL
abbrev pub is_unused : String → EnrollmentRow → Bool
is_unused i t = t.token_id == i && is_unset t.used_at

abbrev pub used : ℕ → EnrollmentRow → EnrollmentRow
used now t = record t { used_at = some now }

-- `consume_enrollment_token`; `later` is the second reading of the clock
unfoldable pub consume_enrollment_token :
    Platform → String → ℕ → ℕ → JudgeStore → Option Fields × JudgeStore
unfolding usable_token token_fields update_where
consume_enrollment_token lib token now later s = elim (usable_token lib token now s) [
  | none ↦ (none, s)
  | some t ↦ (
    some (token_fields t.token_id t.payload t.expires_at),
    record s {
      enrollment_tokens = update_where (is_unused t.token_id) (used later) s.enrollment_tokens;
    },
  )
]

abbrev pub is_live_worker : String → WorkerCredential → Bool
is_live_worker i c = c.worker_id == i && is_unset c.revoked_at

unfoldable pub put_credential : WorkerCredential → List WorkerCredential → List WorkerCredential
unfolding exists_where update_where
put_credential c rows =
    if exists_where (λ d. d.worker_id == c.worker_id) rows
    then update_where (λ d. d.worker_id == c.worker_id) (λ d. c) rows
    else rows ++ c ∷ []

-- `create_worker_credential`; the foreign key asks for a registered worker
unfoldable pub create_worker_credential :
    Platform → String → String → ℕ → JudgeStore → Result (Unit {0} × JudgeStore)
unfolding exists_where put_credential digest_secret
create_worker_credential lib i token now s =
    if exists_where (is_worker i) s.workers
    then ok (
      tt,
      record s {
        worker_credentials =
            put_credential
              (record {
                worker_id = i;
                token_hash = digest_secret lib token;
                created_at = now;
                revoked_at = none;
              })
              s.worker_credentials;
      },
    )
    else err integrity_error

-- `verify_worker_token`
unfoldable pub verify_worker_token : Platform → String → String → JudgeStore → Bool
unfolding first_where digest_secret
verify_worker_token lib i token s = elim (first_where (is_live_worker i) s.worker_credentials) [
  | none ↦ false
  | some c ↦ c.token_hash == digest_secret lib token
]

-- `revoke_worker_credential`
unfoldable pub revoke_worker_credential : String → ℕ → JudgeStore → Bool × JudgeStore
unfolding update_where rowcount
revoke_worker_credential i now s = (
  ltb 0 (rowcount (is_live_worker i) s.worker_credentials),
  record s {
    worker_credentials =
        update_where (is_live_worker i) (λ c. record c { revoked_at = some now })
          s.worker_credentials;
  },
)

-- `set(scopes)`, as a list without repetitions
unfoldable pub distinct : List String → List String
unfolding contains
distinct [] = []
distinct (x ∷ xs) = let rest = distinct xs in if contains x rest then rest else x ∷ rest

-- `create_service_credential`
unfoldable pub create_service_credential :
    Platform
    → String
    → String
    → String
    → List String
    → Option String
    → ℕ
    → JudgeStore
    → Result (ServiceCredential × JudgeStore)
unfolding exists_where digest_secret order_by text_leb distinct
create_service_credential lib i name token scopes expires now s =
    let c : ServiceCredential = record {
      credential_id = i;
      name = name;
      token_hash = digest_secret lib token;
      scopes = order_by text_leb (distinct scopes);
      expires_at = expires;
      created_at = now;
      revoked_at = none;
    } in
    if exists_where (λ d. d.credential_id == i || d.token_hash == digest_secret lib token)
      s.service_credentials
    then err integrity_error
    else ok (c, record s { service_credentials = s.service_credentials ++ c ∷ [] })

-- revoked_at IS NULL
abbrev pub is_live_service : ServiceCredential → Bool
is_live_service c = is_unset c.revoked_at

-- `row["expires_at"] and is_expired(...)`
unfoldable pub has_expired : Platform → ℕ → Option String → Bool
unfolding is_expired
has_expired lib now none = false
has_expired lib now (some t) = if t == "" then false else is_expired lib now t

-- the loop of `verify_service_token`: the first row of that digest decides
unfoldable pub grant : Platform → String → String → ℕ → List ServiceCredential → Option String
unfolding has_expired contains
grant lib hash scope now [] = none
grant lib hash scope now (c ∷ cs) =
    let rest = grant lib hash scope now cs in
    if not (c.token_hash == hash)
    then rest
    else if has_expired lib now c.expires_at
    then none
    else if contains scope c.scopes
    then some c.credential_id
    else none

-- `verify_service_token`
unfoldable pub verify_service_token : Platform → String → String → ℕ → JudgeStore → Option String
unfolding select_where digest_secret grant
verify_service_token lib token scope now s =
    grant lib (digest_secret lib token) scope now
      (select_where is_live_service s.service_credentials)

-- credential_id=? AND revoked_at IS NULL
abbrev pub is_live_id : String → ServiceCredential → Bool
is_live_id i c = c.credential_id == i && is_unset c.revoked_at

-- `revoke_service_credential`
unfoldable pub revoke_service_credential : String → ℕ → JudgeStore → Bool × JudgeStore
unfolding update_where rowcount
revoke_service_credential i now s = (
  ltb 0 (rowcount (is_live_id i) s.service_credentials),
  record s {
    service_credentials =
        update_where (is_live_id i) (λ c. record c { revoked_at = some now }) s.service_credentials;
  },
)

-- ORDER BY created_at DESC
abbrev pub newest_event_first : AuditEvent → AuditEvent → Bool
newest_event_first a b = leb b.created_at a.created_at

abbrev pub max_audit_events : ℕ
max_audit_events = 100000

-- `record_audit_event`: the new row, and the deletion of what the newest 100000 leave
unfoldable pub record_audit_event : AuditEvent → JudgeStore → Result (Unit {0} × JudgeStore)
unfolding select_where exists_where order_by
record_audit_event e s =
    let events = s.audit_events ++ e ∷ [] in
    let old = drop max_audit_events (order_by newest_event_first events) in
    if exists_where (λ x. x.event_id == e.event_id) s.audit_events
    then err integrity_error
    else ok (
      tt,
      record s {
        audit_events =
            select_where (λ x. not (exists_where (λ o. o.event_id == x.event_id) old)) events;
      },
    )

-- `list_audit_events`
unfoldable pub list_audit_events : ℕ → JudgeStore → List AuditEvent
unfolding order_by
list_audit_events limit s =
    take (max 1 (min 1000 limit)) (order_by newest_event_first s.audit_events)
