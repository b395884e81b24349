-- ===== src/Nrm/Wfo/Waiting.antt =====
-- How `activate` waits for the processes that it starts, and what becomes of its circuit.
use su_pa.Base.{
  ◌⊎◌, inl, inr, Text, ℕ, zero, suc, ◌+◌, ◌<◌, ◌≡◌, refl, Bool, true, [], Option, arith, ◌∙◌, ap,
}
use su_pa.Nrm.Wfo.{
  Status, running, Result, ok, nsi_exception, response, Requests, Info, is_unfinished, completed,
  wait_for_completion, Orchestrator, retrieve_access_token, get_url, workflow, get_subscription_id,
  activate,
}

-- The process is created or running at the first `n` polls, and completed at the next one.
pub record Completes (info : ℕ → Result Info) (n : ℕ) : Type 0 where
  pub waiting :
      (k : ℕ)
      → k < n
      → (i : Info) × (info k ≡ ok i)
        × ((i.last_status ≡ Status.created) ⊎ (i.last_status ≡ running))
  pub last : Info
  pub answered : info n ≡ ok last
  pub done : last.last_status ≡ completed

unfinished : (s : Status) → (s ≡ Status.created) ⊎ (s ≡ running) → is_unfinished s ≡ true
unfinished s (inl h) = rw h refl
unfinished s (inr h) = rw h refl

wait_from :
    (info : ℕ → Result Info) (n : ℕ) (h : Completes info n) (d k fuel : ℕ)
    → k + d ≡ n
    → d < fuel
    → wait_for_completion fuel info k ≡ ok tt
unfolding wait_for_completion
wait_from info n h d k zero e l = absurd (omega (arith, l))
wait_from info n h zero k (suc fuel) e l =
    let here : info k ≡ ok h.last = ap info (omega (arith, e)) ∙ h.answered in
    ground (arith, here, h.done)
wait_from info n h (suc d) k (suc fuel) e l =
    let (i, here, w) = h.waiting k (omega (arith, e)) in
    ground (
      arith,
      here,
      unfinished i.last_status w,
      wait_from info n h d (suc k) fuel (omega (arith, e)) (omega (arith, l)),
    )

wait-Completes :
    (info : ℕ → Result Info) (n fuel : ℕ)
    → Completes info n
    → n < fuel
    → wait_for_completion fuel info 0 ≡ ok tt
wait-Completes info n fuel h l = wait_from info n h n 0 fuel (omega arith) l

module _ (requests : Requests) (oauth2_active : Bool) where
  -- The process that creates the circuit completes, and its subscription is found.
  pub record Creates (o : Orchestrator) (p s : Text) (n : ℕ) : Type 0 where
    pub created : workflow requests oauth2_active o.create ≡ ok p
    pub completes : Completes (λ k. get_url requests oauth2_active (o.poll p k)) n
    pub subscribed : get_subscription_id requests oauth2_active o p ≡ ok s

  -- If the workflows that `activate` starts are accepted and their processes complete after `n` and
  -- `m` polls, then `activate` returns the subscription as the circuit ID, with any fuel of more
  -- than so many polls.
  pub activate_returns :
      (o : Orchestrator) (p s q : Text) (n m fuel : ℕ)
      → Creates o p s n
      → workflow requests oauth2_active (o.add_note s) ≡ ok q
      → Completes (λ k. get_url requests oauth2_active (o.poll q k)) m
      → n < fuel
      → m < fuel
      → activate requests oauth2_active fuel o ≡ ok s
  unfolding activate
  activate_returns o p s q n m fuel c noted completes l k =
      rw
        (
          c.created,
          wait-Completes _ n fuel c.completes l,
          c.subscribed,
          noted,
          wait-Completes _ m fuel completes k,
        )
        refl

  -- If the circuit is created but the orchestrator refuses the note, then `activate` fails, so that
  -- the circuit ID of the circuit that now exists is not returned.
  pub activate_loses_circuit :
      (o : Orchestrator) (p s : Text) (n fuel : ℕ)
      → Creates o p s n
      → workflow requests oauth2_active (o.add_note s) ≡ nsi_exception
      → n < fuel
      → activate requests oauth2_active fuel o ≡ nsi_exception
  unfolding activate
  activate_loses_circuit o p s n fuel c refused l =
      rw (c.created, wait-Completes _ n fuel c.completes l, c.subscribed, refused) refl

  -- A refusal by the server of access tokens is not noticed: an empty token is used.
  pub refused_token_is_empty :
      (s : ℕ) (body : Option Text)
      → requests.raises s ≡ true
      → retrieve_access_token requests oauth2_active (response s body) ≡ ok []
  unfolding retrieve_access_token
  refused_token_is_empty s body h = ground (arith, requests.is_true_law s)
