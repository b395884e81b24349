-- ===== src/Examples/Requests.antt =====
-- The request handlers on examples.
use su_pa.Base.Strings.{text_eq}
use su_pa.Base.{◌≡◌, refl, true, false, [], ◌∷◌, none, some}
use su_pa.Connection.Fsm.{terminating}
use su_pa.Connection.Provider.{validate_message_header}
use su_pa.Connection.Provider.Requests.{terminate}
use su_pa.Connection.Provider.Acceptance.{Refused, Accepted, may_terminate, terminate_cases}
use su_pa.Job.Session.{terminate_job, immediately, RequestType, add_job_once, register_request}
use su_pa.Examples.Data.{context, header, held_row}

pub header_valid : validate_message_header context header ≡ none
unfolding validate_message_header text_eq
header_valid = refl

terminate_cases_example :
    (may_terminate held_row.lifecycle_state ≡ true
      → Accepted
          (record held_row { lifecycle_state = terminating })
          (register_request RequestType.terminate 7 ∷ add_job_once terminate_job 7 immediately ∷ [])
          (terminate context header 7 (some held_row)))
    × (may_terminate held_row.lifecycle_state ≡ false
        → Refused (some held_row) (terminate context header 7 (some held_row)))
terminate_cases_example = terminate_cases context header 7 held_row header_valid
