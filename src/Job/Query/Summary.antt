-- ===== src/Job/Query/Summary.antt =====
-- What a query on reservations returns.
use su_pa.Base.{
  Text, ℕ, ◌≡◌, refl, Bool, true, false, ◌&&◌, ◌||◌, List, [], ◌∷◌, Option, none, some, All, ltb,
  ◌==◌, if◌then◌else◌, arith, ◌∙◌, Bool-cases, inl, inr, ap, sym, ==_iff,
}
use su_pa.Connection.Fsm.{is_auto_end, is_activated}
use su_pa.Db.Model.{Reservation}
use su_pa.Job.Query.{
  Stored, QueryRequest, QueryResult, QueryConfirmed, any_id, any_global, is_wanted, wanted, changes,
  query_result, query_all, create_query_confirmed_request,
}
use su_pa.Job.Register.{Notification, Result, max_of}
use su_pa.Program.Versions.{IsVersioned}
use su_pa.Util.Converter.Committed.{queried_versions}

abbrev pub find_stored : ℕ → List Stored → Option Stored
find_stored i [] = none
find_stored i (s ∷ ss) = if s.row.connection_id == i then some s else find_stored i ss

abbrev pub find_result : ℕ → List QueryResult → Option QueryResult
find_result i [] = none
find_result i (x ∷ xs) = if x.connection_id == i then some x else find_result i xs

abbrev pub HasUniqueConnections : List Stored → Type 0
HasUniqueConnections [] = Unit
HasUniqueConnections (s ∷ ss) =
    (find_stored s.row.connection_id ss ≡ none) × HasUniqueConnections ss

-- The schedules and criteria have consecutive versions.
abbrev pub AreVersioned : List Stored → Type 0
AreVersioned ss = All (λ s. (first : ℕ) × IsVersioned first s.row) ss

query_result-some :
    (ns : List Notification) (rs : List Result) (s : Stored) (first : ℕ)
    → IsVersioned first s.row
    → (x : QueryResult) × (query_result ns rs s ≡ some x) × (x.connection_id ≡ s.row.connection_id)
unfolding query_result
query_result-some ns rs s first h =
    let q =
      queried_versions s.parameters
        (is_activated s.row.data_plane_state || is_auto_end s.row.data_plane_state) first s.row h in
    rw (q.0.1, q.1) (_, refl, refl)

abbrev pub changed_after : ℕ → Option ℕ → Bool
changed_after since none = false
changed_after since (some t) = ltb since t

-- The query names no reservation, or this one by one of its IDs.
abbrev pub is_named : List ℕ → List Text → Reservation → Bool
is_named [] [] r = true
is_named is gs r = any_id r.connection_id is || any_global r.global_reservation_id gs

abbrev pub in_scope : QueryRequest → Stored → Bool
in_scope q s =
    is_named q.connection_id q.global_reservation_id s.row
    && changed_after q.if_modified_since s.last_modified

-- What the answer has to hold for a connection ID.
abbrev pub answer_for :
    QueryRequest → List Notification → List Result → Option Stored → Option QueryResult
answer_for q ns rs none = none
answer_for q ns rs (some s) = if in_scope q s then query_result ns rs s else none

wanted_in_scope :
    (since : ℕ) (is : List ℕ) (gs : List Text) (s : Stored)
    → let q : QueryRequest = record {
      connection_id = is;
      global_reservation_id = gs;
      if_modified_since = since;
    } in
      is_wanted q s ≡ in_scope q s
wanted_in_scope since [] [] s = ground arith
wanted_in_scope since [] (g ∷ gs) s = ground arith
wanted_in_scope since (i ∷ is) gs s = ground arith

wanted_first :
    (q : QueryRequest) (ns : List Notification) (rs : List Result) (s : Stored) (ss : List Stored)
    (x : QueryResult) (xs : List QueryResult)
    → query_result ns rs s ≡ some x
    → query_all ns rs (wanted q ss) ≡ some xs
    → query_all ns rs (wanted q (s ∷ ss)) ≡ some (if is_wanted q s then x ∷ xs else xs)
unfolding wanted query_all
wanted_first q ns rs s ss x xs made all = ground arith

first_answer :
    (q : QueryRequest) (ns : List Notification) (rs : List Result) (s : Stored) (ss : List Stored)
    (x : QueryResult) (xs : List QueryResult) (i : ℕ)
    → query_result ns rs s ≡ some x
    → x.connection_id ≡ s.row.connection_id
    → find_stored s.row.connection_id ss ≡ none
    → is_wanted q s ≡ in_scope q s
    → find_result i xs ≡ answer_for q ns rs (find_stored i ss)
    → find_result i (if is_wanted q s then x ∷ xs else xs)
      ≡ answer_for q ns rs (find_stored i (s ∷ ss))
first_answer q ns rs s ss x xs i made same absent scope finds =
    elim (Bool-cases (s.row.connection_id == i)) [
      | inl e ↦
          let here : s.row.connection_id ≡ i = (==_iff _ _).0 e in
          let gone : find_stored i ss ≡ none = ap (λ k. find_stored k ss) (sym here) ∙ absent in
          ground (arith, scope)
      | inr e ↦ ground (arith, scope)
    ]

answers :
    (q : QueryRequest) (ns : List Notification) (rs : List Result) (ss : List Stored)
    → HasUniqueConnections ss
    → AreVersioned ss
    → (xs : List QueryResult) × (query_all ns rs (wanted q ss) ≡ some xs)
      × ((i : ℕ) → find_result i xs ≡ answer_for q ns rs (find_stored i ss))
unfolding wanted query_all
answers q ns rs [] u v = ([], refl, λ i. refl)
answers q ns rs (s ∷ ss) u v =
    let (x, made, same) = query_result-some ns rs s v.0.0 v.0.1 in
    let (xs, all, finds) = answers q ns rs ss u.1 v.1 in
    let scope = wanted_in_scope q.if_modified_since q.connection_id q.global_reservation_id s in
    (
      if is_wanted q s then x ∷ xs else xs,
      wanted_first q ns rs s ss x xs made all,
      λ i. first_answer q ns rs s ss x xs i made same u.0 scope (finds i),
    )

-- Where all reservations have different connection IDs and consecutive versions, a query does not
-- fail. For each connection ID the answer has the result of its reservation, if its row was updated
-- after the time that the query gives and the query names it by one of its IDs or names none, and
-- else nothing; a reservation that was created and whose row was never updated is not answered.
pub query_answers :
    (q : QueryRequest) (ns : List Notification) (rs : List Result) (ss : List Stored)
    → HasUniqueConnections ss
    → AreVersioned ss
    → (x : QueryConfirmed) × (create_query_confirmed_request q ns rs ss ≡ some x)
      × ((i : ℕ) → find_result i x.reservation ≡ answer_for q ns rs (find_stored i ss))
unfolding create_query_confirmed_request
query_answers q ns rs ss u v =
    let a = answers q ns rs ss u v in
    (record { last_modified = max_of (changes ss); reservation = a.0 }, rw a.1 refl, a.2)
