-- ===== src/Job/Query/Sorted.antt =====
-- What a requester that polls for notifications sees.
use su_pa.Base.{ℕ, ◌+◌, ◌≤◌, ◌<◌, ◌≡◌, refl, List, [], ◌∷◌, ◌++◌, some, All, arith, ◌∙◌}
use su_pa.Job.Query.{Stored, QueryResult, or_zero, query_result}
use su_pa.Job.Register.{
  Notification, Result, notification_ids, max_of, next_id, register_notification,
  query_notifications,
}
use su_pa.Job.Session.{Message}

below_max : (ids : List ℕ) (bound : ℕ) → or_zero (max_of ids) ≤ bound → All (λ n. n < bound + 1) ids
below_max [] bound h = tt
below_max (n ∷ ns) bound h = (ground arith, below_max ns bound (ground arith))

next-max : (ids : List ℕ) → next_id ids ≡ or_zero (max_of ids) + 1
next-max [] = refl
next-max (n ∷ ns) = refl

none_after :
    (i first : ℕ) (ns : List Notification)
    → All (λ n. n < first) (notification_ids i ns)
    → query_notifications i first 0 ns ≡ []
unfolding query_notifications
none_after i first [] h = refl
none_after i first (n ∷ ns) h = ground (arith, none_after i first ns)

only_after :
    (i first : ℕ) (ns : List Notification) (n : Notification)
    → All (λ k. k < first) (notification_ids i ns)
    → n.connection_id ≡ i
    → n.notification_id ≡ first
    → query_notifications i first 0 (ns ++ n ∷ []) ≡ n ∷ []
unfolding query_notifications
only_after i first [] n h e f = ground arith
only_after i first (k ∷ ns) n h e f = ground (arith, only_after i first ns n)

only_after_next :
    (i : ℕ) (ns : List Notification) (last : ℕ) (m : Message)
    → last ≡ or_zero (max_of (notification_ids i ns))
    → All (λ k. k < last + 1) (notification_ids i ns)
    → query_notifications i (last + 1) 0 (register_notification i m ns)
      ≡ record { connection_id = i; notification_id = last + 1; message = m } ∷ []
unfolding register_notification
only_after_next i ns last m e below =
    let next : next_id (notification_ids i ns) ≡ last + 1 =
      next-max (notification_ids i ns) ∙ omega (arith, e) in
    rw next (only_after i (last + 1) ns _ below refl refl)

reported_id :
    (ns : List Notification) (rs : List Result) (s : Stored) (x : QueryResult)
    → query_result ns rs s ≡ some x
    → x.notification_id ≡ or_zero (max_of (notification_ids s.row.connection_id ns))
unfolding query_result
reported_id ns rs s x h = ground arith

-- A requester that asks for the notifications after the one that a query reported as the last gets
-- none, and after the next notification of the connection is registered it gets just that one.
pub polls_new_notifications :
    (ns : List Notification) (rs : List Result) (s : Stored) (x : QueryResult) (m : Message)
    → query_result ns rs s ≡ some x
    → let i = s.row.connection_id in
      (query_notifications i (x.notification_id + 1) 0 ns ≡ [])
      × (query_notifications i (x.notification_id + 1) 0 (register_notification i m ns)
          ≡ record { connection_id = i; notification_id = x.notification_id + 1; message = m } ∷ [])
unfolding register_notification
polls_new_notifications ns rs s x m h =
    let i = s.row.connection_id in
    let reported = reported_id ns rs s x h in
    let below = below_max (notification_ids i ns) (x.notification_id) (omega (arith, reported)) in
    (
      none_after i (x.notification_id + 1) ns below,
      only_after_next i ns x.notification_id m reported below,
    )
