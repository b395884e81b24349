-- ===== src/Nrm/Ciena/Lookup.antt =====
-- Which circuits are found on the switch, and what is done with them.
use mathlib.Core.Path.{subst}
use su_pa.Base.{
  Text, is_empty, ℕ, ◌≡◌, refl, true, false, List, [], ◌∷◌, Option, none, some, ◌==◌, arith, ◌⊎◌,
  inl, inr, Bool-cases, Option-cases, ==_iff,
}
use su_pa.Nrm.Ciena.{
  Manager, Circuit, PortRange, get_stp_id, activate_edits, activate, end_name, domain_name,
}
use su_pa.Nrm.Ciena.Atomic.{Whole, Stopped, apply_edits_cases}
use su_pa.Nrm.Ciena.Written.{creating, deleting, deleting-all_requests}
use su_pa.Nrm.Ciena.Tables.{
  FlowPoint, Tables, Ends, Found, lookup, points_of, point_vlan, union_of, found_of, ends_of,
  add_domain, both_ways, add_domains, get_lookup, same_ends, find_circuit, ends, terminate_edits,
  terminate,
}

-- The circuit is a forwarding domain with just two flow points, which have the ends `k` in either
-- order, and it has the names of the flow points and of their classifiers.
abbrev pub Joins : Tables → Ends → Found → Type 0
Joins t k c =
    (f : FlowPoint) × (g : FlowPoint) × (v : ℕ) × (w : ℕ) × (points_of c.fd t.flow_points
      ≡ f ∷ g ∷ [])
    × (point_vlan t.classifiers f ≡ some v)
    × (point_vlan t.classifiers g ≡ some w)
    × (c.flow_points ≡ f.name ∷ g.name ∷ [])
    × (c.classifiers ≡ union_of f.classifiers g.classifiers)
    × ((same_ends (ends_of f v g w) k ≡ true) ⊎ (same_ends (ends_of g w f v) k ≡ true))

-- Every entry is a circuit that joins its key, and so is what is found.
abbrev EntryJoins : Tables → Ends → Found → Type 0
EntryJoins t e c = (k : Ends) → same_ends e k ≡ true → Joins t k c

abbrev AllJoin : Tables → List (Ends × Found) → Type 0
AllJoin t [] = Unit
AllJoin t ((e, c) ∷ es) = EntryJoins t e c × AllJoin t es

find-AllJoin :
    (t : Tables) (k : Ends) (es : List (Ends × Found)) (c : Found)
    → AllJoin t es
    → find_circuit k es ≡ some c
    → Joins t k c
unfolding find_circuit
find-AllJoin t k [] c h e = absurd (cc)
find-AllJoin t k ((d, b) ∷ es) c h e = elim (Bool-cases (same_ends d k)) [
  | inl s ↦ let here : b ≡ c = ground arith in subst (λ x. Joins t k x) here (h.0 k s)
  | inr s ↦ find-AllJoin t k es c h.1 (ground arith)
]

both_ways-AllJoin :
    (t : Tables) (fd : Text) (f g : FlowPoint) (es es' : List (Ends × Found)) (v w : Option ℕ)
    → points_of fd t.flow_points ≡ f ∷ g ∷ []
    → point_vlan t.classifiers f ≡ v
    → point_vlan t.classifiers g ≡ w
    → AllJoin t es
    → both_ways fd f v g w es ≡ some es'
    → AllJoin t es'
both_ways-AllJoin t fd f g es es' none w p a b h e = absurd (cc)
both_ways-AllJoin t fd f g es es' (some v) none p a b h e = absurd (cc)
both_ways-AllJoin t fd f g es es' (some v) (some w) p a b h e =
    let two : ((ends_of g w f v, found_of fd f g) ∷ (ends_of f v g w, found_of fd f g) ∷ es) ≡ es' =
      cc in
    subst (AllJoin t) two (
      λ k s. (f, g, v, w, p, a, b, refl, refl, inr s),
      (λ k s. (f, g, v, w, p, a, b, refl, refl, inl s), h),
    )

add_domain-AllJoin :
    (t : Tables) (fd : Text) (fs : List FlowPoint) (es es' : List (Ends × Found))
    → points_of fd t.flow_points ≡ fs
    → AllJoin t es
    → add_domain t.classifiers fd fs es ≡ some es'
    → AllJoin t es'
add_domain-AllJoin t fd [] es es' p h e = let same : es ≡ es' = cc in subst (AllJoin t) same h
add_domain-AllJoin t fd (f ∷ []) es es' p h e = let same : es ≡ es' = cc in subst (AllJoin t) same h
add_domain-AllJoin t fd (f ∷ g ∷ []) es es' p h e =
    both_ways-AllJoin t fd f g es es' _ _ p refl refl h e
add_domain-AllJoin t fd (f ∷ g ∷ k ∷ fs) es es' p h e =
    let same : es ≡ es' = cc in subst (AllJoin t) same h

add_domains-AllJoin :
    (t : Tables) (fds : List Text) (es es' : List (Ends × Found))
    → AllJoin t es
    → add_domains t fds es ≡ some es'
    → AllJoin t es'
unfolding add_domains
add_domains-AllJoin t [] es es' h e = let same : es ≡ es' = cc in subst (AllJoin t) same h
add_domains-AllJoin t (fd ∷ fds) es es' h e =
    elim (Option-cases (add_domain t.classifiers fd (points_of fd t.flow_points) es)) [
      | inl n ↦ absurd (ground arith)
      | inr (more, n) ↦
          add_domains-AllJoin t fds more es'
            (add_domain-AllJoin t fd (points_of fd t.flow_points) es more refl h n) (ground arith)
    ]

-- What is found on the switch for the ends of a circuit joins them.
found-Joins :
    (t : Tables) (k : Ends) (es : List (Ends × Found)) (c : Found)
    → get_lookup t ≡ lookup es
    → find_circuit k es ≡ some c
    → Joins t k c
unfolding get_lookup
found-Joins t k es c h e = elim (Option-cases (add_domains t t.forwarding_domains [])) [
  | inl n ↦ absurd (ground arith)
  | inr (es', n) ↦
      let same : es' ≡ es = ground arith in
      find-AllJoin t k es c (subst (AllJoin t) same (add_domains-AllJoin t _ [] es' tt n)) e
]

-- `activate` between two ports that each offer the one VLAN: the two classifiers, the forwarding
-- domain and the two flow points are made under their names, validated and, in a candidate
-- configuration, committed, and the switch accepted all of that; or it accepted what came before a
-- request that it refused, after which only a candidate configuration is discarded, and it fails. Where the
-- VLANs differ or a port does not offer its VLAN, nothing is requested and it fails.
pub activate_cases :
    (m : Manager) (ports : List PortRange) (c : Circuit)
    → let src = get_stp_id c.src_port_id c.src_vlan ports in
      let dst = get_stp_id c.dst_port_id c.dst_vlan ports in
      ((s : Text) × (d : Text) × (src ≡ some s)
        × (dst ≡ some d)
        × (c.src_vlan ≡ c.dst_vlan)
        × (Whole m (creating m c s d) (activate m ports c)
            ⊎ Stopped m (creating m c s d) (activate m ports c)))
      ⊎ (((src ≡ none) ⊎ (dst ≡ none) ⊎ ((c.src_vlan == c.dst_vlan) ≡ false))
          × (activate m ports c ≡ record { requests = []; result = none }))
unfolding activate end_name domain_name
activate_cases m ports c = elim (Bool-cases (c.src_vlan == c.dst_vlan)) [
  | inr e ↦ inr (inr (inr e), rw e refl)
  | inl e ↦ elim (Option-cases (get_stp_id c.src_port_id c.src_vlan ports)) [
    | inl s ↦ inr (inl s, rw (e, s) refl)
    | inr (s, hs) ↦ elim (Option-cases (get_stp_id c.dst_port_id c.dst_vlan ports)) [
      | inl d ↦ inr (inr (inl d), rw (e, hs, d) refl)
      | inr (d, hd) ↦ inl (
        s,
        d,
        hs,
        hd,
        (==_iff _ _).0 e,
        rw (e, hs, hd) (apply_edits_cases m (activate_edits c s d)),
      )
    ]
  ]
]

-- `terminate` of a connection that was never activated, or whose circuit is no longer on the switch,
-- succeeds without a request.
terminate_nothing :
    (m : Manager) (iterate : List Text → List Text) (t : Tables) (c : Circuit)
    (es : List (Ends × Found))
    → (is_empty c.circuit_id ≡ true)
      ⊎ ((get_lookup t ≡ lookup es) × (find_circuit (ends c) es ≡ none))
    → terminate m iterate t c ≡ record { requests = []; result = some tt }
unfolding terminate
terminate_nothing m iterate t c es (inl h) = rw h refl
terminate_nothing m iterate t c es (inr h) = elim (Bool-cases (is_empty c.circuit_id)) [
  | inl e ↦ rw e refl
  | inr e ↦ rw (e, h.0, h.1) refl
]

-- `terminate` of an activated connection whose circuit is found: the circuit joins the ports and VLANs
-- of the connection; each of its flow points is deleted, then its forwarding domain, then each of
-- its classifiers, in whatever order a set is read, all is validated and committed, and the switch
-- accepted all of that; or it accepted what came before a request that it refused, after which only
-- a candidate configuration is discarded, and it fails.
pub terminate_deletes :
    (m : Manager) (iterate : List Text → List Text) (t : Tables) (c : Circuit)
    (es : List (Ends × Found)) (f : Found)
    → is_empty c.circuit_id ≡ false
    → get_lookup t ≡ lookup es
    → find_circuit (ends c) es ≡ some f
    → Joins t (ends c) f
      × (Whole m (deleting m iterate f) (terminate m iterate t c)
          ⊎ Stopped m (deleting m iterate f) (terminate m iterate t c))
unfolding terminate
terminate_deletes m iterate t c es f i h e = (
  found-Joins t (ends c) es f h e,
  rw (i, h, e, ← deleting-all_requests m iterate f)
      (apply_edits_cases m (terminate_edits iterate f)),
)
