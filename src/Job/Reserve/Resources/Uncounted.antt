-- ===== src/Job/Reserve/Resources/Uncounted.antt =====
-- Reservations that the resources in use leave out.
use su_pa.Base.{Bool, true, false, List, ◌∷◌, ◌≡◌, arith, Text}
use su_pa.Connection.Fsm.{ReservationState, reserve_checking, reserve_timeout, reserve_aborting}
use su_pa.Db.Model.{Reservation}
use su_pa.Job.Reserve.Resources.{usage_rows, stp_resources_in_use}

-- The states of a modification that is being checked, that failed, that timed out or that is aborted.
abbrev pub is_pending : ReservationState → Bool
is_pending reserve_checking = true
is_pending ReservationState.reserve_failed = true
is_pending reserve_timeout = true
is_pending reserve_aborting = true
is_pending _ = false

-- A reservation in ReserveChecking, ReserveFailed, ReserveTimeout or ReserveAborting changes
-- nothing in the resources in use, also if it has a committed version and an active data plane.
pub pending_is_uncounted :
    (rs : List Reservation) (other r : Reservation) (stp : Text)
    → is_pending other.reservation_state ≡ true
    → stp_resources_in_use (other ∷ rs) r stp ≡ stp_resources_in_use rs r stp
unfolding stp_resources_in_use usage_rows
pending_is_uncounted rs other r stp h = ground arith
