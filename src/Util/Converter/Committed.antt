-- ===== src/Util/Converter/Committed.antt =====
-- The versions that a query reports of a reservation.
use su_pa.Base.{
  second_last?, drop_last, Text, ℕ, zero, suc, ◌+◌, ◌-◌, ◌<◌, ◌≡◌, Bool, true, ◌||◌, List, [], ◌∷◌,
  some, ◌==◌, if◌then◌else◌, length, arith, Bool-cases, inl, inr, ap,
}
use su_pa.Connection.Fsm.{is_reserve_start, reserve_committing, reservation_fsm}
use su_pa.Connection.Error.{NsiError}
use su_pa.Db.Model.{Reservation, Schedule, P2PCriteria, Connection}
use su_pa.Job.Reserve.Commit.{commit_update}
use su_pa.Job.Session.{Caught}
use su_pa.Program.{committed}
use su_pa.Program.Versions.{Aligned, begun-Aligned, IsVersioned, Frame, IsVersioned-Frame}
use su_pa.Util.Converter.{
  version_of, states_version, states_with, ConnectionStates, Criteria, criteria_of, listed,
  zip_criteria, to_criteria_list, to_connection_states,
}
use su_pa.Util.Functional.{count_up}

-- The criteria of rows that belong together, up to the last pair.
abbrev pub reported : List (Text × Text) → List Schedule → List P2PCriteria → List Criteria
reported ps [] cs = []
reported ps (s ∷ ss) [] = []
reported ps (s ∷ ss) (c ∷ cs) = criteria_of ps s.version s c ∷ reported ps ss cs

abbrev pub versions : List Criteria → List ℕ
versions [] = []
versions (c ∷ cs) = c.version ∷ versions cs

-- The criteria are listed with `n` versions from `v` on.
abbrev Lists : List (Text × Text) → List Schedule → List P2PCriteria → ℕ → ℕ → Type 0
Lists ps ss cs v n =
    (zip_criteria ps ss cs ≡ listed (reported ps ss cs))
    × (versions (reported ps ss cs) ≡ count_up v n)

zip-Aligned :
    (ps : List (Text × Text)) (v last n : ℕ) (ss : List Schedule) (cs : List P2PCriteria)
    → Aligned v last ss cs
    → v + n ≡ suc last
    → Lists ps ss cs v n
unfolding zip_criteria
zip-Aligned ps v last n [] [] h e = ground arith
zip-Aligned ps v last n [] (c ∷ cs) h e = absurd h
zip-Aligned ps v last n (s ∷ ss) [] h e = absurd h
zip-Aligned ps v last zero (s ∷ ss) (c ∷ cs) h e =
    absurd (omega (arith, begun-Aligned (suc v) last ss cs h.3))
zip-Aligned ps v last (suc n) (s ∷ ss) (c ∷ cs) h e =
    ground (arith, zip-Aligned ps (suc v) last n ss cs h.3)

zip-drop_last :
    (ps : List (Text × Text)) (v last n : ℕ) (ss : List Schedule) (cs : List P2PCriteria)
    → Aligned v last ss cs
    → v + n ≡ last
    → Lists ps (drop_last ss) (drop_last cs) v n
unfolding zip_criteria
zip-drop_last ps v last n [] [] h e = absurd (omega arith)
zip-drop_last ps v last n [] (c ∷ cs) h e = absurd h
zip-drop_last ps v last n (s ∷ ss) [] h e = absurd h
zip-drop_last ps v last n (s ∷ []) (c ∷ []) h e = ground arith
zip-drop_last ps v last n (s ∷ []) (c ∷ d ∷ cs) h e = absurd h.3
zip-drop_last ps v last n (s ∷ t ∷ ss) (c ∷ []) h e = absurd h.3
zip-drop_last ps v last zero (s ∷ t ∷ ss) (c ∷ d ∷ cs) h e =
    absurd (omega (arith, begun-Aligned (suc (suc v)) last ss cs h.3.3))
zip-drop_last ps v last (suc n) (s ∷ t ∷ ss) (c ∷ d ∷ cs) h e =
    ground (arith, zip-drop_last ps (suc v) last n (t ∷ ss) (d ∷ cs) h.3)

second_last-version :
    (v last : ℕ) (ss : List Schedule) (cs : List P2PCriteria)
    → Aligned v last ss cs
    → v < last
    → version_of (second_last? ss) ≡ some (last - 1)
second_last-version v last [] [] h e = absurd (omega arith)
second_last-version v last [] (c ∷ cs) h e = absurd h
second_last-version v last (s ∷ ss) [] h e = absurd h
second_last-version v last (s ∷ []) (c ∷ []) h e = absurd (omega (arith, h.3))
second_last-version v last (s ∷ []) (c ∷ d ∷ cs) h e = absurd h.3
second_last-version v last (s ∷ t ∷ ss) (c ∷ []) h e = absurd h.3
second_last-version v last (s ∷ t ∷ []) (c ∷ d ∷ []) h e = ground (arith, h.3.3)
second_last-version v last (s ∷ t ∷ []) (c ∷ d ∷ f ∷ cs) h e = absurd h.3.3
second_last-version v last (s ∷ t ∷ u ∷ ss) (c ∷ d ∷ []) h e = absurd h.3.3
second_last-version v last (s ∷ t ∷ u ∷ ss) (c ∷ d ∷ f ∷ cs) h e =
    second_last-version (suc v) last (t ∷ u ∷ ss) (d ∷ f ∷ cs) h.3
      (omega (arith, begun-Aligned (suc (suc (suc v))) last ss cs h.3.3.3))

length-Aligned :
    (v last : ℕ) (ss : List Schedule) (cs : List P2PCriteria)
    → Aligned v last ss cs
    → v + length ss ≡ suc last
length-Aligned v last [] [] h = omega (arith, h)
length-Aligned v last [] (c ∷ cs) h = absurd h
length-Aligned v last (s ∷ ss) [] h = absurd h
length-Aligned v last (s ∷ ss) (c ∷ cs) h = omega (arith, length-Aligned (suc v) last ss cs h.3)

-- How many versions are listed: all if no modification is under way, else all but the last.
abbrev pub listed_versions : ℕ → Reservation → ℕ
listed_versions first r =
    if is_reserve_start r.reservation_state then r.version + 1 - first else r.version - first

-- The version that the states report: the current one, unless it is a modification under way.
abbrev pub reported_version : ℕ → Reservation → ℕ
reported_version first r =
    if is_reserve_start r.reservation_state || r.version == first then r.version else r.version - 1

states_version-reported :
    (first : ℕ) (r : Reservation)
    → IsVersioned first r
    → states_version r ≡ some (reported_version first r)
states_version-reported first r h = elim (Bool-cases (r.version == first)) [
  | inl e ↦ ground (arith, length-Aligned first r.version r.schedules r.p2p_criteria_list h.aligned)
  | inr e ↦ ground (
    arith,
    h.begun,
    length-Aligned first r.version r.schedules r.p2p_criteria_list h.aligned,
    second_last-version first r.version r.schedules r.p2p_criteria_list h.aligned,
  )
]

-- For a reservation whose schedules and criteria have the consecutive versions from `first` to the
-- current one, a query lists criteria of just these versions in order, without the current one
-- outside ReserveStart, and reports as the version of the data plane the last of them, or the
-- current one while there is no other. Neither fails.
pub queried_versions :
    (ps : List (Text × Text)) (active : Bool) (first : ℕ) (r : Reservation)
    → IsVersioned first r
    → ((cs : List Criteria) × (to_criteria_list ps r ≡ listed cs)
        × (versions cs ≡ count_up first (listed_versions first r)))
      × (to_connection_states active r
          ≡ some (record {
            reservation_state = r.reservation_state;
            provision_state = r.provision_state;
            lifecycle_state = r.lifecycle_state;
            data_plane_status = record {
              active = active;
              version = reported_version first r;
              version_consistent = true;
            };
          }))
unfolding to_criteria_list to_connection_states
queried_versions ps active first r h = elim (Bool-cases (is_reserve_start r.reservation_state)) [
  | inl e ↦
      let z =
        zip-Aligned ps first r.version (r.version + 1 - first) r.schedules r.p2p_criteria_list
          h.aligned (omega (arith, h.begun)) in
      ((reported ps r.schedules r.p2p_criteria_list, rw e z.0, rw e z.1), states)
  | inr e ↦
      let z =
        zip-drop_last ps first r.version (r.version - first) r.schedules r.p2p_criteria_list
          h.aligned (omega (arith, h.begun)) in
      (
        (reported ps (drop_last r.schedules) (drop_last r.p2p_criteria_list), rw e z.0, rw e z.1),
        states,
      )
]
  where
    states :
        to_connection_states active r
        ≡ some (record {
          reservation_state = r.reservation_state;
          provision_state = r.provision_state;
          lifecycle_state = r.lifecycle_state;
          data_plane_status = record {
            active = active;
            version = reported_version first r;
            version_consistent = true;
          };
        })
    states = ap (states_with r active) (states_version-reported first r h)

abbrev states : Bool → Reservation → ℕ → ConnectionStates
states active r version = record {
  reservation_state = r.reservation_state;
  provision_state = r.provision_state;
  lifecycle_state = r.lifecycle_state;
  data_plane_status = record { active = active; version = version; version_consistent = true };
}

failed_commit_form :
    (b : Caught) (e : NsiError) (r : Reservation) (c : Connection)
    → b.nsi_exception ≡ some e
    → r.connection ≡ some c
    → r.reservation_state ≡ reserve_committing
    → let failed = committed r (commit_update b r) in
      (is_reserve_start failed.reservation_state ≡ true) × Frame r failed
unfolding commit_update reservation_fsm
failed_commit_form b e r c hb hc hr = ground arith

-- If the NRM fails to commit a version, then a query lists that version with the committed ones and
-- reports it as the version of the data plane.
pub failed_commit_is_listed :
    (ps : List (Text × Text)) (active : Bool) (first : ℕ) (b : Caught) (e : NsiError)
    (r : Reservation) (c : Connection)
    → IsVersioned first r
    → b.nsi_exception ≡ some e
    → r.connection ≡ some c
    → r.reservation_state ≡ reserve_committing
    → let failed = committed r (commit_update b r) in
      ((cs : List Criteria) × (to_criteria_list ps failed ≡ listed cs)
        × (versions cs ≡ count_up first (r.version + 1 - first)))
      × ((s : ConnectionStates) × (to_connection_states active failed ≡ some s)
          × (s.data_plane_status.version ≡ r.version))
failed_commit_is_listed ps active first b e r c h hb hc hr =
    let failed = committed r (commit_update b r) in
    let (start, frame) = failed_commit_form b e r c hb hc hr in
    let q = queried_versions ps active first failed (IsVersioned-Frame first r failed frame h) in
    (
      (q.0.0, q.0.1, ground (arith, q.0.2, frame.version)),
      (states active failed (reported_version first failed), q.1, ground (arith, frame.version)),
    )
