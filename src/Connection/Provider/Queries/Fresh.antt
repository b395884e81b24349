-- ===== src/Connection/Provider/Queries/Fresh.antt =====
-- Acknowledged queries are scheduled once, and answered.
use su_pa.Base.{
  Text, ℕ, ◌≡◌, refl, true, false, List, [], ◌∷◌, none, some, ◌==◌, All, arith, ◌⊎◌, inl, inr,
  Bool-cases, Option-cases, ==_iff, ap,
}
use su_pa.Connection.Error.{NsiError}
use su_pa.Connection.Provider.{
  Header, Context, is_registered, acknowledgment, service_exception, validate_message_header,
}
use su_pa.Connection.Provider.Queries.{
  Query, Rows, Confirmed, answer_of, QueryJob, QueryState, has_job, context_of, query, query_sync,
  call_job, run_query_job, QueryStep, asks, asks_sync, runs, query_step, query_steps, sent_after,
}

-- The correlation ID of every scheduled job is registered.
abbrev pub AreRegistered : List ℕ → List QueryJob → Type 0
AreRegistered ids js = All (λ j. is_registered j.correlation_id ids ≡ true) js

AreRegistered-more :
    (c : ℕ) (ids : List ℕ) (js : List QueryJob) → AreRegistered ids js → AreRegistered (c ∷ ids) js
AreRegistered-more c ids [] h = tt
AreRegistered-more c ids (j ∷ js) h = (ground arith, AreRegistered-more c ids js h.1)

unregistered_is_new :
    (ids : List ℕ) (j : QueryJob) (js : List QueryJob)
    → AreRegistered ids js
    → is_registered j.correlation_id ids ≡ false
    → has_job j js ≡ false
unregistered_is_new ids j [] h e = refl
unregistered_is_new ids j (k ∷ ks) h e = elim (Bool-cases (k.correlation_id == j.correlation_id)) [
  | inl same ↦ absurd (ground arith)
  | inr d ↦ ground (arith, unregistered_is_new ids j ks h.1)
]

call_job-AreRegistered :
    (t : Rows) (c : ℕ) (ids : List ℕ) (js : List QueryJob) (sent : List Confirmed)
    → AreRegistered ids js
    → AreRegistered ids (call_job t c js sent).0
call_job-AreRegistered t c ids [] sent h = tt
call_job-AreRegistered t c ids (j ∷ js) sent h = elim (Bool-cases (j.correlation_id == c)) [
  | inl e ↦ rw e h.1
  | inr e ↦ rw e (h.0, call_job-AreRegistered t c ids js sent h.1)
]

valid_is_new :
    (x : Context) (header : Header)
    → validate_message_header x header ≡ none
    → is_registered header.correlation_id x.correlation_ids ≡ false
unfolding validate_message_header
valid_is_new x header h = ground arith

query_accepted :
    (nsa_id : Text) (header : Header) (q : Query) (s : QueryState)
    → AreRegistered s.correlation_ids s.jobs
    → validate_message_header (context_of nsa_id s) header ≡ none
    → query nsa_id header q s ≡ record {
      state = record s {
        correlation_ids = header.correlation_id ∷ s.correlation_ids;
        jobs = record { correlation_id = header.correlation_id; query = q } ∷ s.jobs;
      };
      response = some acknowledgment;
      answer = none;
    }
unfolding query
query_accepted nsa_id header q s h valid =
    let job : QueryJob = record { correlation_id = header.correlation_id; query = q } in
    let fresh : has_job job s.jobs ≡ false =
      unregistered_is_new s.correlation_ids job s.jobs h
        (valid_is_new (context_of nsa_id s) header valid) in
    rw (valid, fresh) refl

query_refused :
    (nsa_id : Text) (header : Header) (q : Query) (s : QueryState) (e : NsiError)
    → validate_message_header (context_of nsa_id s) header ≡ some e
    → query nsa_id header q s
      ≡ record { state = s; response = some (service_exception e none); answer = none }
unfolding query
query_refused nsa_id header q s e invalid = rw invalid refl

sync_accepted :
    (nsa_id : Text) (t : Rows) (header : Header) (q : Query) (s : QueryState)
    → validate_message_header (context_of nsa_id s) header ≡ none
    → (query_sync nsa_id t header q s).answer ≡ answer_of t q
unfolding query_sync
sync_accepted nsa_id t header q s valid = rw valid refl

first_job_sent :
    (t : Rows) (c : ℕ) (q : Query) (ids : List ℕ) (js : List QueryJob) (sent : List Confirmed)
    → (run_query_job t c (record {
      correlation_ids = ids;
      jobs = record { correlation_id = c; query = q } ∷ js;
      sent = sent;
    })).sent
      ≡ sent_after (answer_of t q) sent
unfolding run_query_job
first_job_sent t c q ids js sent = rw ((==_iff c c).1 refl) refl

step-AreRegistered :
    (nsa_id : Text) (x : QueryStep) (s : QueryState)
    → AreRegistered s.correlation_ids s.jobs
    → let s' = query_step nsa_id x s in AreRegistered s'.correlation_ids s'.jobs
unfolding query_step query_sync run_query_job
step-AreRegistered nsa_id (asks header q) s h =
    elim (Option-cases (validate_message_header (context_of nsa_id s) header)) [
      | inl valid ↦
          rw (query_step, query_accepted nsa_id header q s h valid)
            (ground arith, AreRegistered-more header.correlation_id s.correlation_ids s.jobs h)
      | inr (e, invalid) ↦ rw (query_step, query_refused nsa_id header q s e invalid) h
    ]
step-AreRegistered nsa_id (asks_sync t header q) s h =
    elim (Option-cases (validate_message_header (context_of nsa_id s) header)) [
      | inl valid ↦
          rw (query_step, query_sync, valid)
            (AreRegistered-more header.correlation_id s.correlation_ids s.jobs h)
      | inr (e, invalid) ↦ rw (query_step, query_sync, invalid) h
    ]
step-AreRegistered nsa_id (runs t c) s h =
    call_job-AreRegistered t c s.correlation_ids s.jobs s.sent h

steps-AreRegistered :
    (nsa_id : Text) (xs : List QueryStep) (s : QueryState)
    → AreRegistered s.correlation_ids s.jobs
    → let s' = query_steps nsa_id xs s in AreRegistered s'.correlation_ids s'.jobs
unfolding query_steps
steps-AreRegistered nsa_id [] s h = h
steps-AreRegistered nsa_id (x ∷ xs) s h =
    steps-AreRegistered nsa_id xs (query_step nsa_id x s) (step-AreRegistered nsa_id x s h)

-- Whatever requests came before and whatever jobs ran, a query with a valid header is acknowledged,
-- without an exception of the scheduler, and its job then sends the answer that the synchronous query
-- returns for the same rows. Any other query is answered with the error of its header.
pub query_steps-answered :
    (nsa_id : Text) (xs : List QueryStep) (s : QueryState) (header : Header) (q : Query) (t : Rows)
    → AreRegistered s.correlation_ids s.jobs
    → let before = query_steps nsa_id xs s in
      let h = query nsa_id header q before in
      ((h.response ≡ some acknowledgment)
        × ((run_query_job t header.correlation_id h.state).sent
            ≡ sent_after (query_sync nsa_id t header q before).answer before.sent))
      ⊎ ((e : NsiError) × (validate_message_header (context_of nsa_id before) header ≡ some e)
          × (h.response ≡ some (service_exception e none))
          × (h.state ≡ before))
query_steps-answered nsa_id xs s header q t registered =
    let before = query_steps nsa_id xs s in
    let r = steps-AreRegistered nsa_id xs s registered in
    elim (Option-cases (validate_message_header (context_of nsa_id before) header)) [
      | inl valid ↦ inl (
          rw
            (
              query_accepted nsa_id header q before r valid,
              sync_accepted nsa_id t header q before valid,
            )
            (refl, first_job_sent t header.correlation_id q _ before.jobs before.sent))
      | inr (e, invalid) ↦
          let same = query_refused nsa_id header q before e invalid in
          inr (e, invalid, ap (λ z. z.response) same, ap (λ z. z.state) same)
    ]
