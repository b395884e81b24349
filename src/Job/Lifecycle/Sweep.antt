-- ===== src/Job/Lifecycle/Sweep.antt =====
-- A run of `HealthCheckJob` over the active connections.
use su_pa.Base.{
  inr, inl, Bool-cases, Text, ℕ, ◌≡◌, refl, Bool, not, true, false, List, [], ◌∷◌, ◌++◌, Option,
  none, some, arith, map, All, if◌then◌else◌,
}
use su_pa.Connection.Fsm.{
  LifecycleState, created, terminating, DataPlaneState, lifecycle_fsm, data_plane_fsm,
}
use su_pa.Connection.Error.{generic_service_error}
use su_pa.Db.Model.{Reservation, Connection}
use su_pa.Job.Session.{
  Call, Run, notification, forced_end_event, transition_not_allowed, type_error,
}
use su_pa.Job.Lifecycle.{
  Health, health, nsi_error, other_exception, active_connection, check_connection, health_check_run,
}

abbrev pub says_unhealthy : (ℕ → Connection → Health) → ℕ → Option Connection → Bool
says_unhealthy h i none = false
says_unhealthy h i (some c) = elim (h i c) [
  | health b ↦ not b
  | nsi_error e ↦ false
  | other_exception ↦ false
]

abbrev pub is_unhealthy : (ℕ → Connection → Health) → Reservation → Bool
is_unhealthy h r = says_unhealthy h r.connection_id (active_connection r)

abbrev pub ended : (ℕ → Connection → Health) → Reservation → Reservation
ended h r =
    if is_unhealthy h r
    then record r {
      lifecycle_state = LifecycleState.failed;
      data_plane_state = some DataPlaneState.unhealthy;
    }
    else r

abbrev pub ended_calls : (ℕ → Connection → Health) → List Reservation → List Call
ended_calls h [] = []
ended_calls h (r ∷ rs) =
    (if is_unhealthy h r
      then notification r.connection_id (forced_end_event generic_service_error)
      else [])
    ++ ended_calls h rs

-- An active connection that is unhealthy belongs to a created reservation that has an address to
-- reply to, and the requester takes the event.
pub record Endable (delivers : ℕ → Bool) (r : Reservation) : Type 0 where
  pub reply_to : Text
  pub created : r.lifecycle_state ≡ LifecycleState.created
  pub replies : r.reply_to ≡ some reply_to
  pub delivered : delivers r.connection_id ≡ true

abbrev pub IsEndable : (ℕ → Connection → Health) → (ℕ → Bool) → Reservation → Type 0
IsEndable h delivers r = is_unhealthy h r ≡ true → Endable delivers r

abbrev pub checked : (ℕ → Connection → Health) → Reservation → Run
checked h r = record {
  row = ended h r;
  calls =
      if is_unhealthy h r
      then notification r.connection_id (forced_end_event generic_service_error)
      else [];
  failure = none;
}

check_connection-unhealthy :
    (h : ℕ → Connection → Health) (delivers : ℕ → Bool) (r : Reservation) (t : Text)
    → is_unhealthy h r ≡ true
    → r.lifecycle_state ≡ created
    → r.reply_to ≡ some t
    → delivers r.connection_id ≡ true
    → check_connection h delivers r ≡ checked h r
unfolding check_connection lifecycle_fsm data_plane_fsm
check_connection-unhealthy h delivers r t u c k d = ground arith

check_connection-healthy :
    (h : ℕ → Connection → Health) (delivers : ℕ → Bool) (r : Reservation)
    → is_unhealthy h r ≡ false
    → check_connection h delivers r ≡ checked h r
unfolding check_connection lifecycle_fsm data_plane_fsm
check_connection-healthy h delivers r u = ground arith

check_connection-checked :
    (h : ℕ → Connection → Health) (delivers : ℕ → Bool) (r : Reservation)
    → IsEndable h delivers r
    → check_connection h delivers r ≡ checked h r
check_connection-checked h delivers r e = elim (Bool-cases (is_unhealthy h r)) [
  | inl u ↦
      let k = e u in
      check_connection-unhealthy h delivers r k.reply_to u k.created k.replies k.delivered
  | inr u ↦ check_connection-healthy h delivers r u
]

-- If every active connection that the NRM calls unhealthy belongs to a created reservation with an
-- address to reply to, and the requesters of these take the event, then one run of the health
-- check ends exactly those, notifies their requesters in order, and leaves the others as they are;
-- a check that the NRM cannot do ends nothing.
pub health_check_sweeps :
    (h : ℕ → Connection → Health) (delivers : ℕ → Bool) (rs : List Reservation)
    → All (IsEndable h delivers) rs
    → health_check_run h delivers rs
      ≡ record { rows = map (ended h) rs; calls = ended_calls h rs; failure = none }
unfolding health_check_run
health_check_sweeps h delivers [] all = refl
health_check_sweeps h delivers (r ∷ rs) all =
    rw (check_connection-checked h delivers r all.0, health_check_sweeps h delivers rs all.1) refl

-- If an active connection is unhealthy while its reservation is terminating, the run of the
-- health check fails at it and ends there: neither it nor any connection after it is changed.
pub health_check_stops :
    (h : ℕ → Connection → Health) (delivers : ℕ → Bool) (r : Reservation) (rs : List Reservation)
    → is_unhealthy h r ≡ true
    → r.lifecycle_state ≡ terminating
    → health_check_run h delivers (r ∷ rs)
      ≡ record { rows = r ∷ rs; calls = []; failure = some transition_not_allowed }
unfolding health_check_run lifecycle_fsm data_plane_fsm
health_check_stops h delivers r rs u t = ground arith

-- If an active connection of a created reservation is unhealthy and there is no address to reply to,
-- the run of the health check fails at it: it is not ended, nor is any connection after it changed.
unreplied_stops_check :
    (h : ℕ → Connection → Health) (delivers : ℕ → Bool) (r : Reservation) (rs : List Reservation)
    → is_unhealthy h r ≡ true
    → r.lifecycle_state ≡ created
    → r.reply_to ≡ none
    → health_check_run h delivers (r ∷ rs)
      ≡ record { rows = r ∷ rs; calls = []; failure = some type_error }
unfolding health_check_run lifecycle_fsm data_plane_fsm
unreplied_stops_check h delivers r rs u t n = ground arith
