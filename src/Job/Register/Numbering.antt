-- ===== src/Job/Register/Numbering.antt =====
-- The numbering of notifications and results, and what the queries see of it.
use su_pa.Base.{
  ℕ, suc, ◌+◌, ◌<◌, ◌≡◌, refl, ap, ◌∙◌, true, false, List, [], ◌∷◌, ◌++◌, ◌==◌, if◌then◌else◌,
  arith, length, All, inl, inr, Bool-cases, ==_iff,
}
use su_pa.Job.Session.{Message}
use su_pa.Job.Register.{
  Notification, Result, notification_ids, result_ids, next_id, register_notification, has_result,
  replace_result, register_result, query_notifications,
}

-- The numbers from `first` on, in order.
abbrev pub NumberedFrom : ℕ → List ℕ → Type 0
NumberedFrom first [] = Unit
NumberedFrom first (n ∷ ns) = (n ≡ first) × NumberedFrom (suc first) ns

max_from :
    (first : ℕ) (ns : List ℕ)
    → NumberedFrom (suc first) ns
    → next_id (first ∷ ns) ≡ suc (first + length ns)
max_from first [] h = ground arith
max_from first (n ∷ ns) h = rw h.0 (ground (arith, max_from (suc first) ns h.1))

append_next :
    (first : ℕ) (ns : List ℕ)
    → NumberedFrom first ns
    → NumberedFrom first (ns ++ (first + length ns) ∷ [])
append_next first [] h = (omega arith, tt)
append_next first (n ∷ ns) h = (h.0, rw (shifted first ns) (append_next (suc first) ns h.1))
  where
    shifted : (first : ℕ) (ns : List ℕ) → first + suc (length ns) ≡ suc first + length ns
    shifted first ns = omega arith

next_is : (ids : List ℕ) → NumberedFrom 1 ids → next_id ids ≡ 1 + length ids
next_is [] h = refl
next_is (n ∷ ns) h = rw h.0 (max_from 1 ns h.1 ∙ omega arith)

numbered_next : (ids : List ℕ) → NumberedFrom 1 ids → NumberedFrom 1 (ids ++ next_id ids ∷ [])
numbered_next ids h = rw (next_is ids h) (append_next 1 ids h)

-- Every connection's rows are numbered from 1 on.
abbrev pub NotificationsNumbered : List Notification → Type 0
NotificationsNumbered ns = (i : ℕ) → NumberedFrom 1 (notification_ids i ns)

abbrev pub ResultsNumbered : List Result → Type 0
ResultsNumbered rs = (i : ℕ) → NumberedFrom 1 (result_ids i rs)

notification_ids-append :
    (i : ℕ) (ns ms : List Notification)
    → notification_ids i (ns ++ ms) ≡ notification_ids i ns ++ notification_ids i ms
notification_ids-append i [] ms = refl
notification_ids-append i (n ∷ ns) ms = ground (arith, notification_ids-append i ns ms)

result_ids-append :
    (i : ℕ) (rs ms : List Result) → result_ids i (rs ++ ms) ≡ result_ids i rs ++ result_ids i ms
result_ids-append i [] ms = refl
result_ids-append i (r ∷ rs) ms = ground (arith, result_ids-append i rs ms)

result_ids-replace :
    (i c : ℕ) (m : Message) (rs : List Result)
    → result_ids i (replace_result c m rs) ≡ result_ids i rs
result_ids-replace i c m [] = refl
result_ids-replace i c m (r ∷ rs) = ground (arith, result_ids-replace i c m rs)

append_empty : (ids : List ℕ) → ids ++ [] ≡ ids
append_empty [] = refl
append_empty (n ∷ ns) = ap (λ ms. n ∷ ms) (append_empty ns)

-- A row is appended to the ones of its own connection, and to no other's.
numbered_after :
    (i j : ℕ) (ids : ℕ → List ℕ)
    → ((k : ℕ) → NumberedFrom 1 (ids k))
    → NumberedFrom 1 (ids j ++ (if i == j then next_id (ids i) ∷ [] else []))
numbered_after i j ids h = elim (Bool-cases (i == j)) [
  | inl e ↦ rw (e, (==_iff i j).0 e) (numbered_next (ids j) (h j))
  | inr e ↦ rw (e, append_empty (ids j)) (h j)
]

-- Registering a notification keeps the rows of every connection numbered from 1 on.
pub register_notification-NotificationsNumbered :
    (i : ℕ) (m : Message) (ns : List Notification)
    → NotificationsNumbered ns
    → NotificationsNumbered (register_notification i m ns)
unfolding register_notification
register_notification-NotificationsNumbered i m ns h j =
    rw (notification_ids-append j ns _) (numbered_after i j (λ k. notification_ids k ns) h)

-- If the results of every connection are numbered from 1 on, in order, then so they are after one
-- more result is registered.
register_result-ResultsNumbered :
    (i c : ℕ) (m : Message) (rs : List Result)
    → ResultsNumbered rs
    → ResultsNumbered (register_result i c m rs)
unfolding register_result
register_result-ResultsNumbered i c m rs h j = elim (Bool-cases (has_result c rs)) [
  | inl e ↦ rw (e, result_ids-replace j c m rs) (h j)
  | inr e ↦ rw (e, result_ids-append j rs _) (numbered_after i j (λ k. result_ids k rs) h)
]

has-replace :
    (c : ℕ) (m : Message) (rs : List Result)
    → has_result c (replace_result c m rs) ≡ has_result c rs
has-replace c m [] = refl
has-replace c m (r ∷ rs) = ground (arith, has-replace c m rs)

replace-replace :
    (c : ℕ) (m n : Message) (rs : List Result)
    → replace_result c n (replace_result c m rs) ≡ replace_result c n rs
replace-replace c m n [] = refl
replace-replace c m n (r ∷ rs) = ground (arith, replace-replace c m n rs)

has-append :
    (c : ℕ) (r : Result) (rs : List Result)
    → r.correlation_id ≡ c
    → has_result c (rs ++ r ∷ []) ≡ true
has-append c r [] e = ground arith
has-append c r (s ∷ rs) e = ground (arith, has-append c r rs e)

replace-append :
    (c : ℕ) (m : Message) (r : Result) (rs : List Result)
    → has_result c rs ≡ false
    → r.correlation_id ≡ c
    → replace_result c m (rs ++ r ∷ []) ≡ rs ++ record r { message = m } ∷ []
replace-append c m r [] h e = ground arith
replace-append c m r (s ∷ rs) h e = ground (arith, replace-append c m r rs)

-- A job that runs again for the same request replaces the result of its earlier run: registering
-- two results for one correlation ID leaves the rows that registering the second alone leaves.
register_result_again :
    (i c : ℕ) (m n : Message) (rs : List Result)
    → register_result i c n (register_result i c m rs) ≡ register_result i c n rs
unfolding register_result
register_result_again i c m n rs = elim (Bool-cases (has_result c rs)) [
  | inl e ↦ rw (e, has-replace c m rs, e, replace-replace c m n rs) refl
  | inr e ↦ rw (e, has-append c (fresh m) rs refl, replace-append c n (fresh m) rs e refl) refl
]
  where
    fresh : Message → Result
    fresh k = record {
      connection_id = i;
      correlation_id = c;
      result_id = next_id (result_ids i rs);
      message = k;
    }

numbered_below :
    (first : ℕ) (ids : List ℕ) → NumberedFrom first ids → All (λ k. k < first + length ids) ids
numbered_below first [] h = tt
numbered_below first (n ∷ ns) h = (omega (arith, h.0), shift ns (numbered_below (suc first) ns h.1))
  where
    shift :
        (ks : List ℕ)
        → All (λ k. k < suc first + length ns) ks
        → All (λ k. k < first + length (n ∷ ns)) ks
    shift [] all = tt
    shift (k ∷ ks) all = (omega (arith, all.0), shift ks all.1)

query_below :
    (i first : ℕ) (ns : List Notification)
    → 0 < first
    → All (λ k. k < first) (notification_ids i ns)
    → query_notifications i first 0 ns ≡ []
unfolding query_notifications
query_below i first [] p all = refl
query_below i first (n ∷ ns) p all = elim (Bool-cases (n.connection_id == i)) [
  | inl e ↦
      let own : All (λ k. k < first) (n.notification_id ∷ notification_ids i ns) = rw e at all in
      ground (arith, own.0, query_below i first ns p own.1)
  | inr e ↦ ground (arith, query_below i first ns p)
]

query-append :
    (i a b : ℕ) (ns ms : List Notification)
    → query_notifications i a b (ns ++ ms)
      ≡ query_notifications i a b ns ++ query_notifications i a b ms
unfolding query_notifications
query-append i a b [] ms = refl
query-append i a b (n ∷ ns) ms = ground (arith, query-append i a b ns ms)

-- If the notifications of every connection are numbered from 1 on, a query for a connection from
-- its next number on, made after one more notification is registered for it, returns that one
-- alone.
query_notifications-register :
    (i : ℕ) (m : Message) (ns : List Notification)
    → NotificationsNumbered ns
    → query_notifications i (next_id (notification_ids i ns)) 0 (register_notification i m ns)
      ≡ record { connection_id = i; notification_id = next_id (notification_ids i ns); message = m }
        ∷ []
unfolding register_notification query_notifications
query_notifications-register i m ns h =
    rw
      (
        query-append i (next_id ids) 0 ns _,
        query_below i (next_id ids) ns (omega (arith, next_is ids (h i))) below,
      )
      (ground (arith, (==_iff i i).1 refl))
  where
    ids : List ℕ
    ids = notification_ids i ns

    below : All (λ k. k < next_id ids) ids
    below = rw (next_is ids (h i)) (numbered_below 1 ids (h i))
