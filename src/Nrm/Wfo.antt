-- ===== src/Nrm/Wfo.antt =====
-- src/supa/nrm/backends/wfo.py: the backend for a workflow orchestrator. What the orchestrator and the
-- server of access tokens answer is an argument; of their answers only the status and the fields that
-- the code reads are kept; the text of a refusal with the status 400 is taken to have the detail that
-- the code reads of it. Loops have fuel, of which the children show how much is enough.
pub mod Waiting
pub mod Pages
use su_pa.Documents.Topology.{Stp}
use su_pa.Base.{
  Text, ℕ, zero, suc, ◌+◌, ◌≡◌, Bool, true, false, not, ◌&&◌, List, [], ◌∷◌, ◌++◌, Option, none,
  some, ltb, ◌==◌, if◌then◌else◌, length,
}

-- A value, an NsiException, another exception, or a loop that the fuel does not bring to its end.
pub data Result (A : Type 0) : Type 0 where
  ok : A → Result A
  nsi_exception other_exception still_running : Result A

abbrev pub and_then : {A B : Type 0} → Result A → (A → Result B) → Result B
and_then (ok a) f = f a
and_then nsi_exception f = nsi_exception
and_then other_exception f = other_exception
and_then still_running f = still_running

-- What `requests.get` and `requests.post` do: a response with its status and what is read of its JSON
-- text, a ConnectionError, or another RequestException.
pub data Reply (A : Type 0) : Type 0 where
  response : ℕ → Option A → Reply A
  connection_error request_exception : Reply A

-- For a status: whether `raise_for_status` raises an HTTPError, and the truth value of the response,
-- which the documentation of requests says is that it does not raise.
pub record Requests : Type 0 where
  pub raises : ℕ → Bool
  pub is_true : ℕ → Bool
  pub is_true_law : (s : ℕ) → is_true s ≡ not (raises s)

-- One request: what the server of tokens answers first, and then the orchestrator.
pub record Answer (A : Type 0) : Type 0 where
  pub token : Reply Text
  pub reply : Reply A

-- What is read of the JSON text; an error is one of Python's.
abbrev pub json : {A : Type 0} → Option A → Result A
json none = other_exception
json (some a) = ok a

pub data Status : Type 0 where
  created running completed failed : Status

-- What is read of a process.
pub record Info : Type 0 where
  pub last_status : Status
  pub subscription_id : Option Text

abbrev pub is_unfinished : Status → Bool
is_unfinished created = true
is_unfinished running = true
is_unfinished completed = false
is_unfinished failed = false

abbrev pub finished : Status → Result (Unit {0})
finished completed = ok tt
finished _ = nsi_exception

-- `_wait_for_completion`, from the poll with the given number on.
unfoldable pub wait_for_completion : ℕ → (ℕ → Result Info) → ℕ → Result (Unit {0})
wait_for_completion zero info k = still_running
wait_for_completion (suc fuel) info k = elim (info k) [
  | nsi_exception ↦ nsi_exception
  | other_exception ↦ other_exception
  | still_running ↦ still_running
  | ok i ↦ elim (is_unfinished i.last_status) [
    | true ↦ wait_for_completion fuel info (suc k)
    | false ↦ finished i.last_status
  ]
]

-- A page of subscriptions.
pub record Page : Type 0 where
  pub subscription_ids : List Text
  pub has_next_page : Bool

-- `_get_nsi_stp_subscription_ids`, of which the argument is the answer to the query from an offset on.
unfoldable pub get_subscription_ids : ℕ → (ℕ → Result Page) → List Text → Result (List Text)
get_subscription_ids zero graphql found = still_running
get_subscription_ids (suc fuel) graphql found = elim (graphql (length found)) [
  | nsi_exception ↦ nsi_exception
  | other_exception ↦ other_exception
  | still_running ↦ still_running
  | ok p ↦ elim p.has_next_page [
    | true ↦ get_subscription_ids fuel graphql (found ++ p.subscription_ids)
    | false ↦ ok (found ++ p.subscription_ids)
  ]
]

-- The orchestrator: the answers to the create workflow, to the polls of a process by their number, to
-- the request for its subscription, to the note for a subscription, to the terminate workflow, to the
-- GraphQL queries for the status of a subscription, where the answer is whether it is terminated, and
-- for the subscriptions from an offset on, and to the request for the domain model of a subscription.
-- In a GraphQL answer none stands for errors.
pub record Orchestrator : Type 0 where
  pub create : Answer Text
  pub poll : Text → ℕ → Answer Info
  pub process : Text → Answer Info
  pub add_note : Text → Answer Text
  pub terminate : Text → Answer Text
  pub status : Text → Answer (Option (Option Bool))
  pub subscriptions : ℕ → Answer (Option Page)
  pub domain_model : Text → Answer Stp

module _ (requests : Requests) (oauth2_active : Bool) where
  open requests use {raises, is_true}

  -- `_retrieve_access_token`, with the `if token:` of the code.
  unfoldable pub retrieve_access_token : Reply Text → Result Text
  retrieve_access_token connection_error = if oauth2_active then nsi_exception else ok []
  retrieve_access_token request_exception = if oauth2_active then nsi_exception else ok []
  retrieve_access_token (response s body) =
      if not oauth2_active
      then ok []
      else if not (is_true s)
      then ok []
      else if ltb 210 s
      then (if raises s then nsi_exception else ok [])
      else json body

  -- The reply to `_get_url`, read as JSON.
  abbrev pub got : {A : Type 0} → Reply A → Result A
  got connection_error = nsi_exception
  got request_exception = nsi_exception
  got (response s body) = json body

  unfoldable pub get_url : {A : Type 0} → Answer A → Result A
  unfolding retrieve_access_token
  get_url a = and_then (retrieve_access_token a.token) (λ t. got a.reply)

  -- The reply to `_post_url_json` in the start of a workflow.
  abbrev pub started : {A : Type 0} → Reply A → Result A
  started connection_error = nsi_exception
  started request_exception = other_exception
  started (response s body) = if ltb 210 s && raises s then nsi_exception else json body

  -- `_workflow_create`, `_workflow_terminate` and `_add_note`.
  unfoldable pub workflow : {A : Type 0} → Answer A → Result A
  unfolding retrieve_access_token
  workflow a = and_then (retrieve_access_token a.token) (λ t. started a.reply)

  -- The wait for a process.
  abbrev pub wait : ℕ → Orchestrator → Text → Result (Unit {0})
  wait fuel o p = wait_for_completion fuel (λ k. get_url (o.poll p k)) 0

  -- `_get_subscription_id`.
  unfoldable pub get_subscription_id : Orchestrator → Text → Result Text
  unfolding get_url
  get_subscription_id o p = and_then (get_url (o.process p)) (λ i. json i.subscription_id)

  -- `activate`.
  unfoldable pub activate : ℕ → Orchestrator → Result Text
  unfolding workflow get_subscription_id wait_for_completion get_url
  activate fuel o = and_then (workflow o.create) λ p. and_then (wait fuel o p) λ u.
      and_then (get_subscription_id o p)
        λ s. and_then (workflow (o.add_note s)) λ q. and_then (wait fuel o q) λ v. ok s

  -- `deactivate`, which returns no circuit ID.
  unfoldable pub deactivate : ℕ → Orchestrator → Text → Result (Option Text)
  unfolding workflow wait_for_completion get_url
  deactivate fuel o circuit_id =
      and_then (workflow (o.terminate circuit_id)) λ p. and_then (wait fuel o p) λ u. ok none

  -- `_graphql`.
  abbrev pub data_of : {A : Type 0} → Option A → Result A
  data_of none = nsi_exception
  data_of (some a) = ok a

  abbrev pub queried : {A : Type 0} → Reply (Option A) → Result A
  queried connection_error = nsi_exception
  queried request_exception = nsi_exception
  queried (response s body) = if raises s then nsi_exception else and_then (json body) data_of

  unfoldable pub graphql : {A : Type 0} → Answer (Option A) → Result A
  unfolding retrieve_access_token
  graphql a = and_then (retrieve_access_token a.token) (λ t. queried a.reply)

  -- `_is_healthy`; a subscription that is not found is an NsiException.
  unfoldable pub is_healthy : Orchestrator → Text → Result Bool
  unfolding graphql
  is_healthy o circuit_id =
      and_then (graphql (o.status circuit_id))
        λ s. elim s [ none ↦ nsi_exception | some terminated ↦ ok (not terminated) ]

  -- `_get_domain_model` with `_stp_from_domain_model`.
  abbrev pub modelled : Reply Stp → Result Stp
  modelled connection_error = nsi_exception
  modelled request_exception = nsi_exception
  modelled (response s body) = if not (s == 200) && raises s then nsi_exception else json body

  unfoldable pub get_stp : Answer Stp → Result Stp
  unfolding retrieve_access_token
  get_stp a = and_then (retrieve_access_token a.token) (λ t. modelled a.reply)

  unfoldable pub get_stps : Orchestrator → List Text → Result (List Stp)
  unfolding get_stp
  get_stps o [] = ok []
  get_stps o (i ∷ is) =
      let rest = get_stps o is in
      and_then (get_stp (o.domain_model i)) λ s. and_then rest λ ss. ok (s ∷ ss)

  -- `topology`.
  unfoldable pub topology : ℕ → Orchestrator → Result (List Stp)
  unfolding get_stps get_subscription_ids graphql
  topology fuel o =
      and_then (get_subscription_ids fuel (λ k. graphql (o.subscriptions k)) []) (get_stps o)
