-- ===== src/Job/Register.antt =====
-- `register_notification` and `register_result` of src/supa/job/shared.py, and the selection of
-- src/supa/job/query.py. The tables are lists in the order of insertion; the time stamps of
-- results are left out, and a message stands for its serialized data.
pub mod Numbering
use su_pa.Base.{
  ℕ, ◌+◌, Bool, true, false, not, ◌&&◌, ◌||◌, List, [], ◌∷◌, ◌++◌, Option, none, some, ltb, leb,
  ◌==◌, if◌then◌else◌,
}
use su_pa.Job.Session.{Message}

pub record Notification : Type 0 where
  pub connection_id : ℕ
  pub notification_id : ℕ
  pub message : Message

pub record Result : Type 0 where
  pub connection_id : ℕ
  pub correlation_id : ℕ
  pub result_id : ℕ
  pub message : Message

abbrev pub notification_ids : ℕ → List Notification → List ℕ
notification_ids i [] = []
notification_ids i (n ∷ ns) =
    let rest = notification_ids i ns in
    if n.connection_id == i then n.notification_id ∷ rest else rest

abbrev pub result_ids : ℕ → List Result → List ℕ
result_ids i [] = []
result_ids i (r ∷ rs) =
    let rest = result_ids i rs in if r.connection_id == i then r.result_id ∷ rest else rest

abbrev pub larger : ℕ → Option ℕ → ℕ
larger n none = n
larger n (some m) = if ltb n m then m else n

-- `func.max(…).scalar()`, which is None if there are no rows.
abbrev pub max_of : List ℕ → Option ℕ
max_of [] = none
max_of (n ∷ ns) = some (larger n (max_of ns))

abbrev pub one_more : Option ℕ → ℕ
one_more none = 1
one_more (some n) = n + 1

abbrev pub next_id : List ℕ → ℕ
next_id ids = one_more (max_of ids)

-- `register_notification`, for the connection of the request.
unfoldable pub register_notification : ℕ → Message → List Notification → List Notification
register_notification i m ns =
    ns
    ++ record { connection_id = i; notification_id = next_id (notification_ids i ns); message = m }
      ∷ []

abbrev pub has_result : ℕ → List Result → Bool
has_result c [] = false
has_result c (r ∷ rs) = r.correlation_id == c || has_result c rs

-- The row of the correlation ID, which is unique, has its message replaced.
abbrev pub replace_result : ℕ → Message → List Result → List Result
replace_result c m [] = []
replace_result c m (r ∷ rs) =
    let rest = replace_result c m rs in
    if r.correlation_id == c then record r { message = m } ∷ rs else r ∷ rest

-- `register_result`, for the connection and the correlation ID of the request.
unfoldable pub register_result : ℕ → ℕ → Message → List Result → List Result
register_result i c m rs =
    if has_result c rs
    then replace_result c m rs
    else rs
      ++ record {
        connection_id = i;
        correlation_id = c;
        result_id = next_id (result_ids i rs);
        message = m;
      }
        ∷ []

-- A bound of 0 is none.
abbrev pub in_window : ℕ → ℕ → ℕ → Bool
in_window first last n = (not (ltb 0 first) || leb first n) && (not (ltb 0 last) || leb n last)

-- The rows that `create_query_notification_confirmed_request` returns.
unfoldable pub query_notifications : ℕ → ℕ → ℕ → List Notification → List Notification
query_notifications i first last [] = []
query_notifications i first last (n ∷ ns) =
    let rest = query_notifications i first last ns in
    if n.connection_id == i && in_window first last n.notification_id then n ∷ rest else rest

-- The rows that `create_query_result_confirmed_request` returns.
unfoldable pub query_results : ℕ → ℕ → ℕ → List Result → List Result
query_results i first last [] = []
query_results i first last (r ∷ rs) =
    let rest = query_results i first last rs in
    if r.connection_id == i && in_window first last r.result_id then r ∷ rest else rest
