-- ===== src/Store/Credentials/Tokens.antt =====
-- Tokens that are used once, and credentials that a revocation ends.
use brunost_judge.Prelude.{
  ℕ, String, ◌≡◌, ◌≢◌, refl, sym, ap, ◌∙◌, inl, inr, true, false, Bool-cases, Option-cases, none,
  some, List, [], ◌∷◌, arith, ◌==◌, eq_refl, eq_iff, ==→eq, ◌++◌,
}
use brunost_judge.Platform.{Platform, digest_secret}
use brunost_judge.Json.{Fields}
use brunost_judge.Sql.{select_where, first_where, update_where, exists_where}
use brunost_judge.Sql.Keys.{IsUnique, Occurs, Occurs-determined, first-Occurs}
use brunost_judge.Sql.Update.{first-satisfies}
use brunost_judge.Store.{ok, EnrollmentRow, WorkerCredential, ServiceCredential, JudgeStore}
use brunost_judge.Store.Credentials.{
  put_credential, create_worker_credential, is_usable, usable_token, consume_enrollment_token,
  is_unused, used, is_live_worker, verify_worker_token, revoke_worker_credential, grant,
  verify_service_token, is_live_id, is_live_service, revoke_service_credential,
}

no_live_worker :
    (i : String) (now : ℕ) (rows : List WorkerCredential)
    → first_where
        (is_live_worker i)
        (update_where (is_live_worker i) (λ c. record c { revoked_at = some now }) rows)
      ≡ none
unfolding first_where update_where
no_live_worker i now [] = refl
no_live_worker i now (c ∷ rows) = ground (arith, no_live_worker i now rows)

-- After the revocation of a worker's credential, no token of that worker is accepted.
pub revoked_worker_is_refused :
    (lib : Platform) (i token : String) (now : ℕ) (s : JudgeStore)
    → verify_worker_token lib i token (revoke_worker_credential i now s).1 ≡ false
unfolding verify_worker_token revoke_worker_credential
revoked_worker_is_refused lib i token now s =
    rw (no_live_worker i now s.worker_credentials, verify_worker_token, revoke_worker_credential)

module _ (c : WorkerCredential) (live : c.revoked_at ≡ none) where
  replaced_live :
      (rows : List WorkerCredential)
      → exists_where (λ d. d.worker_id == c.worker_id) rows ≡ true
      → first_where
          (is_live_worker c.worker_id)
          (update_where (λ d. d.worker_id == c.worker_id) (λ d. c) rows)
        ≡ some c
  unfolding first_where update_where exists_where
  replaced_live [] h = absurd (cc h)
  replaced_live (d ∷ rows) h = ground (arith, replaced_live rows, eq_refl c.worker_id, live)

  appended_live :
      (rows : List WorkerCredential)
      → exists_where (λ d. d.worker_id == c.worker_id) rows ≡ false
      → first_where (is_live_worker c.worker_id) (rows ++ c ∷ []) ≡ some c
  unfolding first_where exists_where
  appended_live [] h = ground (arith, eq_refl c.worker_id, live)
  appended_live (d ∷ rows) h = ground (arith, appended_live rows)

  stored_live :
      (rows : List WorkerCredential)
      → first_where (is_live_worker c.worker_id) (put_credential c rows) ≡ some c
  unfolding put_credential
  stored_live rows = elim (Bool-cases (exists_where (λ d. d.worker_id == c.worker_id) rows)) [
    | inl old ↦ rw old (replaced_live rows old)
    | inr new ↦ rw new (appended_live rows new)
  ]

-- After a worker's credential is issued or replaced, exactly the tokens with the digest of the new
-- token are accepted.
pub issued_token_decides :
    (lib : Platform) (i token other : String) (now : ℕ) (s s' : JudgeStore)
    → create_worker_credential lib i token now s ≡ ok (tt, s')
    → verify_worker_token lib i other s' ≡ (digest_secret lib token == digest_secret lib other)
unfolding create_worker_credential verify_worker_token
issued_token_decides lib i token other now s s' h =
    let c : WorkerCredential = record {
      worker_id = i;
      token_hash = digest_secret lib token;
      created_at = now;
      revoked_at = none;
    } in
    let stored : s'.worker_credentials ≡ put_credential c s.worker_credentials = ground arith in
    rw (stored, stored_live c refl s.worker_credentials, verify_worker_token) refl

grant-revoked :
    (lib : Platform) (i hash scope : String) (now at : ℕ) (rows : List ServiceCredential)
    → grant lib hash scope now (
        select_where is_live_service
          (update_where (is_live_id i) (λ c. record c { revoked_at = some at }) rows))
      ≢ some i
unfolding grant select_where update_where
grant-revoked lib i hash scope now at [] h = absurd (cc h)
grant-revoked lib i hash scope now at (c ∷ rows) h =
    ground (arith, grant-revoked lib i hash scope now at rows, eq_iff c.credential_id i)

-- After the revocation of a service credential, no token grants that credential.
revoked_service_grants_nothing :
    (lib : Platform) (i token scope : String) (now at : ℕ) (s : JudgeStore)
    → verify_service_token lib token scope now (revoke_service_credential i at s).1 ≢ some i
unfolding verify_service_token revoke_service_credential
revoked_service_grants_nothing lib i token scope now at s h =
    grant-revoked lib i (digest_secret lib token) scope now at s.service_credentials h

abbrev pub token_digest : EnrollmentRow → String
token_digest t = t.token_hash

-- once the row of a digest is used, no row of it is usable
none_usable :
    (hash i : String) (later : ℕ) (rows : List EnrollmentRow)
    → ((x : EnrollmentRow) → Occurs x rows → x.token_hash ≡ hash → x.token_id ≡ i)
    → first_where (is_usable hash) (update_where (is_unused i) (used later) rows) ≡ none
unfolding first_where update_where
none_usable hash i later [] only = refl
none_usable hash i later (x ∷ rows) only = ground (
  arith,
  none_usable hash i later rows (λ y o. only y (inr o)),
  only x (inl refl),
  eq_iff x.token_hash hash,
  eq_iff x.token_id i,
)

consumed : JudgeStore → String → ℕ → JudgeStore
consumed s i later = record s {
  enrollment_tokens = update_where (is_unused i) (used later) s.enrollment_tokens;
}

module _ (lib : Platform) (token : String) where
  usable-first :
      (now : ℕ) (s : JudgeStore) (t : EnrollmentRow)
      → usable_token lib token now s ≡ some t
      → first_where (is_usable (digest_secret lib token)) s.enrollment_tokens ≡ some t
  unfolding usable_token
  usable-first now s t h = ground arith

  consume-none :
      (again after : ℕ) (s : JudgeStore)
      → first_where (is_usable (digest_secret lib token)) s.enrollment_tokens ≡ none
      → consume_enrollment_token lib token again after s ≡ (none, s)
  unfolding usable_token consume_enrollment_token
  consume-none again after s h = ground arith

  used_up :
      (later : ℕ) (s : JudgeStore) (t : EnrollmentRow)
      → IsUnique token_digest s.enrollment_tokens
      → first_where (is_usable (digest_secret lib token)) s.enrollment_tokens ≡ some t
      → first_where
          (is_usable (digest_secret lib token))
          (consumed s t.token_id later).enrollment_tokens
        ≡ none
  unfolding consumed
  used_up later s t u found =
      let hit = first-satisfies (is_usable (digest_secret lib token)) s.enrollment_tokens t found in
      let digest = ==→eq t.token_hash (digest_secret lib token) (ground arith) in
      none_usable (digest_secret lib token) t.token_id later s.enrollment_tokens (λ x o e.
        ap (λ r. r.token_id)
          (Occurs-determined token_digest x t s.enrollment_tokens u o
            (first-Occurs (is_usable (digest_secret lib token)) s.enrollment_tokens t found)
            (e ∙ sym digest)))

-- An enrollment token gives its payload once: after a call that consumed it, every further call
-- gives nothing and leaves the store as it is.
pub token_is_single_use :
    (lib : Platform) (token : String) (now later again after : ℕ) (s : JudgeStore) (p : Fields)
    (s' : JudgeStore)
    → IsUnique token_digest s.enrollment_tokens
    → consume_enrollment_token lib token now later s ≡ (some p, s')
    → consume_enrollment_token lib token again after s' ≡ (none, s')
unfolding consume_enrollment_token consumed
token_is_single_use lib token now later again after s p s' u first =
    elim (Option-cases (usable_token lib token now s)) [
      | inl missing ↦ absurd (ground arith)
      | inr (t, usable) ↦
          let same : s' ≡ consumed s t.token_id later = ground arith in
          rw same (
            consume-none lib token again after (consumed s t.token_id later)
              (used_up lib token later s t u (usable-first lib token now s t usable)))
    ]
