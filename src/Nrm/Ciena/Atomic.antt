-- ===== src/Nrm/Ciena/Atomic.antt =====
-- Each primitive of the switch is carried out whole, or its changes are discarded.
use su_pa.Base.{
  ◌≡◌, refl, true, false, List, [], ◌∷◌, ◌++◌, none, some, if◌then◌else◌, ◌⊎◌, inl, inr, Bool-cases,
  ◌∙◌, sym, ap,
}
use mathlib.Core.Path.{fun_ext, subst}
use mathlib.Core.List.{append_assoc, append-nil}
use su_pa.Nrm.Ciena.{
  Edit, Request, edit_config, validate, commit, Manager, Ran, discard_changes, attempt, ran_then,
  edit_all, commit_changes, apply_edits,
}

-- The requests of the edits, in order, with the commit of a candidate configuration.
abbrev pub edit_requests : List Edit → List Request → List Request
edit_requests [] after = after
edit_requests (e ∷ es) after = edit_config e ∷ edit_requests es after

abbrev pub all_requests : Manager → List Edit → List Request
all_requests m es = edit_requests es (validate ∷ (if m.is_candidate then commit ∷ [] else []))

-- The switch accepts `qs`, one request after another, where `h` were made before.
abbrev pub Accepts : Manager → List Request → List Request → Type 0
Accepts m h [] = Unit
Accepts m h (q ∷ qs) = (m.accepts (h ++ q ∷ []) ≡ true) × Accepts m (h ++ q ∷ []) qs

-- After `h`, the switch accepted all requests, which were made with success.
abbrev pub WholeAfter : Manager → List Request → List Request → Ran (Unit {0}) → Type 0
WholeAfter m h whole r = Accepts m h whole × (r.requests ≡ h ++ whole) × (r.result ≡ some tt)

-- The request `q` was refused after `h`; the changes of a candidate configuration were discarded
-- then, and the result is an exception.
abbrev pub RefusedAfter : Manager → List Request → Request → Ran (Unit {0}) → Type 0
RefusedAfter m h q r =
    (m.accepts (h ++ q ∷ []) ≡ false)
    × (r.requests ≡ (if m.is_candidate then (h ++ q ∷ []) ++ discard_changes ∷ [] else h ++ q ∷ []))
    × (r.result ≡ none)

-- After `h`, the switch accepted the requests of `front`, which were made, and refused the next.
abbrev pub StoppedAfter : Manager → List Request → List Request → Ran (Unit {0}) → Type 0
StoppedAfter m h whole r =
    (front : List Request) × (q : Request) × (rest : List Request) × (front ++ q ∷ rest ≡ whole)
    × Accepts m h front
    × RefusedAfter m (h ++ front) q r

-- The switch accepted all requests, which were made with success.
abbrev pub Whole : Manager → List Request → Ran (Unit {0}) → Type 0
Whole m whole r = WholeAfter m [] whole r

-- The requests before the first that the switch refused were made, and that one.
abbrev pub Stopped : Manager → List Request → Ran (Unit {0}) → Type 0
Stopped m whole r = StoppedAfter m [] whole r

abbrev WholeOrStopped : Manager → List Request → List Request → Ran (Unit {0}) → Type 0
WholeOrStopped m h whole r = WholeAfter m h whole r ⊎ StoppedAfter m h whole r

module _ (m : Manager) where
  -- One request after another.
  attempt_all : List Request → List Request → Ran (Unit {0})
  attempt_all [] h = record { requests = h; result = some tt }
  attempt_all (q ∷ qs) h = ran_then (attempt m q h) (λ h' u. attempt_all qs h')

  attempt_all_none :
      (h : List Request) → attempt_all [] h ≡ record { requests = h; result = some tt }
  unfolding attempt_all
  attempt_all_none h = refl

  attempt_all_accepted :
      (q : Request) (qs h : List Request)
      → m.accepts (h ++ q ∷ []) ≡ true
      → attempt_all (q ∷ qs) h ≡ attempt_all qs (h ++ q ∷ [])
  unfolding attempt_all
  attempt_all_accepted q qs h e = rw e refl

  attempt_all_refused :
      (q : Request) (qs h : List Request)
      → m.accepts (h ++ q ∷ []) ≡ false
      → RefusedAfter m h q (attempt_all (q ∷ qs) h)
  unfolding attempt_all
  attempt_all_refused q qs h e = (e, rw e refl, rw e refl)

  WholeOrStopped-accepted :
      (q : Request) (qs h : List Request) (r : Ran (Unit {0}))
      → m.accepts (h ++ q ∷ []) ≡ true
      → WholeOrStopped m (h ++ q ∷ []) qs r
      → WholeOrStopped m h (q ∷ qs) r
  WholeOrStopped-accepted q qs h r e (inl (all, made, ok)) =
      inl ((e, all), made ∙ append_assoc h (q ∷ []) qs, ok)
  WholeOrStopped-accepted q qs h r e (inr (front, p, rest, whole, all, last)) = inr (
    q ∷ front,
    p,
    rest,
    ap (λ qs. q ∷ qs) whole,
    (e, all),
    subst (λ g. RefusedAfter m g p r) (append_assoc h (q ∷ []) front) last,
  )

  attempt_all_cases : (qs h : List Request) → WholeOrStopped m h qs (attempt_all qs h)
  attempt_all_cases [] h = rw (attempt_all_none h) (inl (tt, sym (append-nil h), refl))
  attempt_all_cases (q ∷ qs) h = elim (Bool-cases (m.accepts (h ++ q ∷ []))) [
    | inl e ↦
        subst (WholeOrStopped m h (q ∷ qs)) (sym (attempt_all_accepted q qs h e))
          (WholeOrStopped-accepted q qs h _ e (attempt_all_cases qs (h ++ q ∷ [])))
    | inr e ↦ inr (
      [],
      q,
      qs,
      refl,
      tt,
      subst (λ g. RefusedAfter m g q (attempt_all (q ∷ qs) h)) (sym (append-nil h))
          (attempt_all_refused q qs h e),
    )
  ]

  edit_all-attempt_all :
      (es : List Edit) (h after : List Request)
      → ran_then (edit_all m es h) (λ h' u. attempt_all after h')
        ≡ attempt_all (edit_requests es after) h
  unfolding edit_all attempt_all
  edit_all-attempt_all [] h after = refl
  edit_all-attempt_all (e ∷ es) h after = elim (Bool-cases (m.accepts (h ++ edit_config e ∷ []))) [
    | inl ok ↦ rw ok (edit_all-attempt_all es (h ++ edit_config e ∷ []) after)
    | inr refused ↦ rw refused refl
  ]

  -- Validation, and the commit of a candidate configuration.
  commit_requests : List Request
  commit_requests = validate ∷ (if m.is_candidate then commit ∷ [] else [])

  commit_last :
      (h : List Request)
      → commit_changes m h ≡ attempt_all (if m.is_candidate then commit ∷ [] else []) h
  unfolding attempt_all
  commit_last h = elim (Bool-cases m.is_candidate) [
    | inl e ↦ elim (Bool-cases (m.accepts (h ++ commit ∷ []))) [
      | inl ok ↦ rw (e, ok) refl
      | inr refused ↦ rw (e, refused) refl
    ]
    | inr e ↦ rw e refl
  ]

  finish :
      (h : List Request)
      → ran_then (attempt m validate h) (λ h' v. commit_changes m h')
        ≡ attempt_all commit_requests h
  unfolding attempt_all commit_requests
  finish h = ap (ran_then (attempt m validate h)) (fun_ext λ h'. fun_ext λ v. commit_last h')

  apply_edits-attempt_all : (es : List Edit) → apply_edits m es ≡ attempt_all (all_requests m es) []
  unfolding apply_edits commit_requests
  apply_edits-attempt_all es =
      ap (ran_then (edit_all m es [])) (fun_ext λ h. fun_ext λ u. finish h)
      ∙ edit_all-attempt_all es [] commit_requests

  pub apply_edits_cases :
      (es : List Edit)
      → Whole m (all_requests m es) (apply_edits m es)
        ⊎ Stopped m (all_requests m es) (apply_edits m es)
  apply_edits_cases es = rw (apply_edits-attempt_all es) (attempt_all_cases (all_requests m es) [])
