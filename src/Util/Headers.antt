-- ===== src/Util/Headers.antt =====
-- The headers of messages, of src/supa/util/converter.py.
use su_pa.Base.{Text, ℕ, Bool, true, List, [], ◌∷◌, Option, none, some, if◌then◌else◌}
use su_pa.Db.Model.{Reservation}

-- `Segment`, `Path` and `PathTrace` of src/supa/db/model.py, in the order that the rows are kept in.
pub record Segment : Type 0 where
  pub segment_id : Text
  pub upa_connection_id : Text
  pub stps : List Text

pub record PathTrace : Type 0 where
  pub path_trace_id : Text
  pub ag_connection_id : Text
  pub paths : List (List Segment)

-- The header columns of a reservation that the other parts do not use.
pub record Origin : Type 0 where
  pub correlation_id : ℕ
  pub session_security_attributes : Text
  pub path_trace : Option PathTrace

-- What a converter yields: a message, or a TypeError.
pub data Built (A : Type 0) : Type 0 where
  built : A → Built A
  type_error : Built A

pub record PbHeader : Type 0 where
  pub protocol_version : Text
  pub correlation_id : ℕ
  pub requester_nsa : Text
  pub provider_nsa : Text
  pub reply_to : Option Text
  pub session_security_attributes : Text
  pub path_trace : Option PathTrace

-- The loop over the paths. At the last one, where our segment is to be added, `pb_segment.stps.extend`
-- is called with two objects of the class `Stp`. The field `stps` of the protocol is a repeated
-- string, so that this is a TypeError.
unfoldable pub copy_paths : Bool → List (List Segment) → Built (List (List Segment))
copy_paths add_path_segment [] = built []
copy_paths add_path_segment (p ∷ []) = if add_path_segment then type_error else built (p ∷ [])
copy_paths add_path_segment (p ∷ q ∷ ps) = elim (copy_paths add_path_segment (q ∷ ps)) [
  | type_error ↦ type_error
  | built rest ↦ built (p ∷ rest)
]

abbrev pub with_paths : PathTrace → Built (List (List Segment)) → Built (Option PathTrace)
with_paths t type_error = type_error
with_paths t (built ps) = built (some (record t { paths = ps }))

abbrev pub copy_trace : Bool → Option PathTrace → Built (Option PathTrace)
copy_trace add_path_segment none = built none
copy_trace add_path_segment (some t) = with_paths t (copy_paths add_path_segment t.paths)

abbrev pub header_with : Reservation → Origin → Built (Option PathTrace) → Built PbHeader
header_with r o type_error = type_error
header_with r o (built t) = built (record {
  protocol_version = r.protocol_version;
  correlation_id = o.correlation_id;
  requester_nsa = r.requester_nsa;
  provider_nsa = r.provider_nsa;
  reply_to = r.reply_to;
  session_security_attributes = o.session_security_attributes;
  path_trace = t;
})

unfoldable pub to_header : Bool → Origin → Reservation → Built PbHeader
unfolding copy_paths
to_header add_path_segment o r = header_with r o (copy_trace add_path_segment o.path_trace)

-- `to_response_header`.
unfoldable pub to_response_header : PbHeader → PbHeader
to_response_header h = record h { reply_to = none }

-- `to_generic_confirmed_request`.
pub record GenericConfirmed : Type 0 where
  pub header : PbHeader
  pub connection_id : ℕ

abbrev pub confirmed_with : Reservation → Built PbHeader → Built GenericConfirmed
confirmed_with r type_error = type_error
confirmed_with r (built h) = built (record { header = h; connection_id = r.connection_id })

unfoldable pub to_generic_confirmed_request : Origin → Reservation → Built GenericConfirmed
unfolding to_header
to_generic_confirmed_request o r = confirmed_with r (to_header true o r)
