-- ===== src/Examples/Workflows.antt =====
-- A workflow orchestrator on examples: processes that complete at the second poll, and 102 subscriptions.
use su_pa.Base.{
  Text, codes, ℕ, zero, suc, ◌≡◌, refl, true, false, not, ◌&&◌, List, [], ◌∷◌, ◌++◌, map, none,
  some, ltb, leb, ◌==◌, if◌then◌else◌, arith, length,
}
use su_pa.Documents.Topology.{Stp}
use su_pa.Nrm.Wfo.{
  ok, nsi_exception, response, Requests, Answer, running, completed, Info, Page, Orchestrator,
  retrieve_access_token, get_url, workflow, get_subscription_id, activate, graphql, get_stp,
  topology,
}
use su_pa.Nrm.Wfo.Waiting.{Completes, Creates, activate_returns, activate_loses_circuit}
use su_pa.Nrm.Wfo.Pages.{page_size, first_of, after_of, Pages, topology-map}
use su_pa.Examples.Data.{low_vlans}

abbrev requests : Requests
requests = record {
  raises = λ s. leb 400 s && ltb s 600;
  is_true = λ s. not (leb 400 s && ltb s 600);
  is_true_law = λ s. refl;
}

abbrev answer : {A : Type 0} → ℕ → A → Answer A
answer status a = record {
  token = response 200 (some (codes "token"));
  reply = response status (some a);
}

abbrev info : ℕ → Info
info k = record {
  last_status = if k == 0 then running else completed;
  subscription_id = some (codes "s");
}

abbrev stp_named : Text → Stp
stp_named i = record {
  topology = codes "t";
  stp_id = i;
  port_id = codes "1";
  vlans = low_vlans;
  description = none;
  is_alias_in = none;
  is_alias_out = none;
  bandwidth = 10;
  enabled = true;
}

abbrev none_listed : Page
none_listed = record { subscription_ids = []; has_next_page = false }

-- The note is answered with the status.
abbrev orchestrator : ℕ → Orchestrator
orchestrator status = record {
  create = answer 201 (codes "p");
  poll = λ p k. answer 200 (info k);
  process = λ p. answer 200 (info 1);
  add_note = λ s. answer status (codes "q");
  terminate = λ s. answer 201 (codes "r");
  status = λ s. answer 200 (some (some false));
  subscriptions = λ after. answer 200 (some none_listed);
  domain_model = λ i. answer 200 (stp_named i);
}

process-Completes :
    (status : ℕ) (p : Text)
    → Completes (λ k. get_url requests true ((orchestrator status).poll p k)) 1
unfolding get_url retrieve_access_token
process-Completes status p = record {
  waiting = λ k l. (info k, refl, ground arith);
  last = info 1;
  answered = refl;
  done = refl;
}

orchestrator-Creates :
    (status : ℕ) → Creates requests true (orchestrator status) (codes "p") (codes "s") 1
unfolding workflow get_subscription_id get_url retrieve_access_token
orchestrator-Creates status = record {
  created = refl;
  completes = process-Completes status (codes "p");
  subscribed = refl;
}

accepted : workflow requests true ((orchestrator 201).add_note (codes "s")) ≡ ok (codes "q")
unfolding workflow retrieve_access_token
accepted = refl

activate_returns_example : activate requests true 9 (orchestrator 201) ≡ ok (codes "s")
activate_returns_example =
    activate_returns requests true (orchestrator 201) (codes "p") (codes "s") (codes "q") 1 1 9
      (orchestrator-Creates 201) accepted (process-Completes 201 (codes "q")) (omega arith)
      (omega arith)

unavailable : workflow requests true ((orchestrator 503).add_note (codes "s")) ≡ nsi_exception
unfolding workflow retrieve_access_token
unavailable = refl

activate_loses_circuit_example : activate requests true 9 (orchestrator 503) ≡ nsi_exception
activate_loses_circuit_example =
    activate_loses_circuit requests true (orchestrator 503) (codes "p") (codes "s") 1 9
      (orchestrator-Creates 503) unavailable (omega arith)

-- A list, and an orchestrator that serves it in pages.
abbrev repeated : ℕ → List Text
repeated zero = []
repeated (suc n) = codes "s" ∷ repeated n

abbrev page_from : List Text → Page
page_from rest = record {
  subscription_ids = first_of page_size rest;
  has_next_page = ltb page_size (length rest);
}

abbrev listing : List Text → Orchestrator
listing all = record (orchestrator 201) {
  subscriptions = λ after. answer 200 (some (page_from (after_of after all)));
}

after-length : (front rest : List Text) → after_of (length front) (front ++ rest) ≡ rest
after-length [] rest = refl
after-length (x ∷ front) rest = after-length front rest

listing-Pages :
    (all : List Text) → Pages (λ k. graphql requests true ((listing all).subscriptions k)) all
unfolding graphql retrieve_access_token
listing-Pages all front rest e = rw (← e, after-length front rest) refl

models_stp :
    (all : List Text) (i : Text)
    → get_stp requests true ((listing all).domain_model i) ≡ ok (stp_named i)
unfolding get_stp retrieve_access_token
models_stp all i = refl

topology-map_example :
    topology requests true 103 (listing (repeated 102)) ≡ ok (map stp_named (repeated 102))
topology-map_example =
    topology-map requests true (listing (repeated 102)) (repeated 102) stp_named 103
      (listing-Pages (repeated 102)) (models_stp (repeated 102)) (omega arith)
