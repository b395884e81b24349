-- ===== src/Nrm/Wfo/Pages.antt =====
-- The subscriptions of all pages are read.
use su_pa.Base.{
  Text, ℕ, zero, suc, ◌-◌, ◌<◌, ◌≡◌, refl, Bool, false, List, [], ◌∷◌, ◌++◌, map, ltb, arith,
  length, Bool-cases, inl, inr, ◌∙◌, ap,
}
use mathlib.Core.List.{append_assoc}
use su_pa.Documents.Topology.{Stp}
use su_pa.Nrm.Wfo.{
  Result, ok, Page, get_subscription_ids, Requests, Orchestrator, graphql, get_stp, get_stps,
  topology,
}

-- `GRAPHQL_PAGE_SIZE`.
abbrev pub page_size : ℕ
page_size = 100

abbrev pub first_of : ℕ → List Text → List Text
first_of zero xs = []
first_of (suc n) [] = []
first_of (suc n) (x ∷ xs) = x ∷ first_of n xs

abbrev pub after_of : ℕ → List Text → List Text
after_of zero xs = xs
after_of (suc n) [] = []
after_of (suc n) (x ∷ xs) = after_of n xs

-- The answers are the pages of a list: from each offset on the next so many, and whether there are more.
abbrev pub Pages : (ℕ → Result Page) → List Text → Type 0
Pages answers all =
    (front rest : List Text)
    → front ++ rest ≡ all
    → answers (length front)
      ≡ ok (record {
        subscription_ids = first_of page_size rest;
        has_next_page = ltb page_size (length rest);
      })

first-after : (n : ℕ) (xs : List Text) → first_of n xs ++ after_of n xs ≡ xs
first-after zero xs = refl
first-after (suc n) [] = refl
first-after (suc n) (x ∷ xs) = ap (λ ys. x ∷ ys) (first-after n xs)

first_of_all : (n : ℕ) (xs : List Text) → ltb n (length xs) ≡ false → first_of n xs ≡ xs
first_of_all zero [] h = refl
first_of_all zero (x ∷ xs) h = absurd (ground arith)
first_of_all (suc n) [] h = refl
first_of_all (suc n) (x ∷ xs) h = ap (λ ys. x ∷ ys) (first_of_all n xs (ground arith))

length-after : (n : ℕ) (xs : List Text) → length (after_of n xs) ≡ length xs - n
length-after zero xs = omega arith
length-after (suc n) [] = omega arith
length-after (suc n) (x ∷ xs) = omega (arith, length-after n xs)

get_subscription_ids-Pages :
    (answers : ℕ → Result Page) (all : List Text)
    → Pages answers all
    → (fuel : ℕ) (front rest : List Text) → front ++ rest ≡ all
    → length rest < fuel
    → get_subscription_ids fuel answers front ≡ ok all
unfolding get_subscription_ids
get_subscription_ids-Pages answers all pages zero front rest e l = absurd (omega (arith, l))
get_subscription_ids-Pages answers all pages (suc fuel) front rest e l =
    let page = pages front rest e in
    elim (Bool-cases (ltb page_size (length rest))) [
      | inr last ↦
          let whole : front ++ first_of page_size rest ≡ all =
            ap (λ x. front ++ x) (first_of_all page_size rest last) ∙ e in
          ground (arith, page, last, whole)
      | inl more ↦
          let next : (front ++ first_of page_size rest) ++ after_of page_size rest ≡ all =
            append_assoc front (first_of page_size rest) (after_of page_size rest)
            ∙ ap (λ x. front ++ x) (first-after page_size rest)
            ∙ e in
          let size = length-after page_size rest in
          let less : length (after_of page_size rest) < fuel = ground (arith, size, more, l) in
          let later =
            get_subscription_ids-Pages answers all pages fuel (front ++ first_of page_size rest)
              (after_of page_size rest) next less in
          ground (arith, page, more, later)
    ]

module _ (requests : Requests) (oauth2_active : Bool) where
  stps_read :
      (o : Orchestrator) (stp : Text → Stp) (all : List Text)
      → ((i : Text) → get_stp requests oauth2_active (o.domain_model i) ≡ ok (stp i))
      → get_stps requests oauth2_active o all ≡ ok (map stp all)
  unfolding get_stps
  stps_read o stp [] h = refl
  stps_read o stp (i ∷ is) h = rw (h i, stps_read o stp is h) refl

  -- If the orchestrator answers the queries with the pages of its list of active subscriptions, and
  -- each request for the domain model of one, then `topology` reads pages until there are no more,
  -- at most one more than there are subscriptions, and returns the STP of every subscription once,
  -- in order.
  pub topology-map :
      (o : Orchestrator) (all : List Text) (stp : Text → Stp) (fuel : ℕ)
      → Pages (λ k. graphql requests oauth2_active (o.subscriptions k)) all
      → ((i : Text) → get_stp requests oauth2_active (o.domain_model i) ≡ ok (stp i))
      → length all < fuel
      → topology requests oauth2_active fuel o ≡ ok (map stp all)
  unfolding topology
  topology-map o all stp fuel pages models l =
      rw (get_subscription_ids-Pages _ all pages fuel [] all refl l) (stps_read o stp all models)
