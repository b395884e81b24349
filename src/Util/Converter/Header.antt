-- ===== src/Util/Converter/Header.antt =====
-- What happens to a path trace in the header of an answer.
use su_pa.Base.{
  ◌≡◌, refl, Bool, true, false, List, [], ◌∷◌, Option, none, some, arith, Bool-cases, inl, inr,
  if◌then◌else◌,
}
use su_pa.Connection.Fsm.{is_activated}
use su_pa.Db.Model.{Reservation}
use su_pa.Util.Converter.{to_data_plane_state_change_request}
use su_pa.Util.Headers.{
  Built, built, type_error, Segment, PathTrace, Origin, PbHeader, copy_paths, copy_trace, to_header,
  to_generic_confirmed_request,
}

-- The request came with a path trace that has a path.
abbrev pub is_traced : Option PathTrace → Bool
is_traced none = false
is_traced (some t) = elim (t.paths) [ [] ↦ false | p ∷ ps ↦ true ]

-- The header as the rows have it.
abbrev pub copied : Origin → Reservation → PbHeader
copied o r = record {
  protocol_version = r.protocol_version;
  correlation_id = o.correlation_id;
  requester_nsa = r.requester_nsa;
  provider_nsa = r.provider_nsa;
  reply_to = r.reply_to;
  session_security_attributes = o.session_security_attributes;
  path_trace = o.path_trace;
}

copy_paths-false : (ps : List (List Segment)) → copy_paths false ps ≡ built ps
unfolding copy_paths
copy_paths-false [] = refl
copy_paths-false (p ∷ []) = refl
copy_paths-false (p ∷ q ∷ ps) = ground (arith, copy_paths-false (q ∷ ps))

abbrev not_if_any : List (List Segment) → Built (List (List Segment))
not_if_any [] = built []
not_if_any (p ∷ ps) = type_error

copy_paths-true : (ps : List (List Segment)) → copy_paths true ps ≡ not_if_any ps
unfolding copy_paths
copy_paths-true [] = refl
copy_paths-true (p ∷ []) = refl
copy_paths-true (p ∷ q ∷ ps) = ground (arith, copy_paths-true (q ∷ ps))

copy_trace-false : (t : Option PathTrace) → copy_trace false t ≡ built t
copy_trace-false none = refl
copy_trace-false (some t) = rw (copy_paths-false t.paths) refl

copy_trace-true :
    (t : Option PathTrace) → copy_trace true t ≡ (if is_traced t then type_error else built t)
copy_trace-true none = refl
copy_trace-true (some t) = ground (arith, copy_paths-true t.paths)

-- The header of a failure has all that is stored, the paths of a path trace included. Confirmations
-- and changes of the data plane have the same header if the request came without a path; if it
-- came with a path trace of at least one path, a TypeError is raised in the place of their header
-- and of the whole message.
pub to_header_cases :
    (o : Origin) (r : Reservation)
    → let traced = is_traced o.path_trace in
      (to_header false o r ≡ built (copied o r))
      × (to_header true o r ≡ (if traced then type_error else built (copied o r)))
      × (to_generic_confirmed_request o r ≡ (
          if traced
          then type_error
          else built (record { header = copied o r; connection_id = r.connection_id })))
      × (to_data_plane_state_change_request o r ≡ (
          if traced
          then type_error
          else built (record {
            header = copied o r;
            connection_id = r.connection_id;
            data_plane_status = record {
              active = is_activated r.data_plane_state;
              version = r.version;
              version_consistent = true;
            };
          })))
unfolding to_header to_generic_confirmed_request to_data_plane_state_change_request
to_header_cases o r = elim (Bool-cases (is_traced o.path_trace)) [
  | inl e ↦
      rw (copy_trace-false o.path_trace, copy_trace-true o.path_trace, e) (refl, refl, refl, refl)
  | inr e ↦
      rw (copy_trace-false o.path_trace, copy_trace-true o.path_trace, e) (refl, refl, refl, refl)
]
