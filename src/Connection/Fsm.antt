-- ===== src/Connection/Fsm.antt =====
-- src/supa/connection/fsm.py: the four state machines of the NSI Connection Service. A transition
-- table is a function into Option; `none` is TransitionNotAllowed, which the state machine library
-- raises for an event that has no transition from the current state.
pub mod Paths
use su_pa.Base.{Bool, true, false, Option, none, some}

pub data ReservationState : Type 0 where
  reserve_start reserve_checking reserve_held reserve_committing : ReservationState
  reserve_failed reserve_timeout reserve_aborting : ReservationState

pub data ReservationEvent : Type 0 where
  reserve_request reserve_confirmed reserve_failed reserve_abort_confirmed : ReservationEvent
  reserve_timeout_notification reserve_commit_request reserve_commit_confirmed : ReservationEvent
  reserve_commit_failed reserve_abort_request : ReservationEvent

-- `ReservationStateMachine`.
unfoldable pub reservation_fsm : ReservationState → ReservationEvent → Option ReservationState
reservation_fsm reserve_start reserve_request = some reserve_checking
reservation_fsm reserve_checking reserve_confirmed = some reserve_held
reservation_fsm reserve_checking ReservationEvent.reserve_failed =
    some ReservationState.reserve_failed
reservation_fsm reserve_aborting reserve_abort_confirmed = some reserve_start
reservation_fsm reserve_held reserve_timeout_notification = some reserve_timeout
reservation_fsm reserve_held reserve_commit_request = some reserve_committing
reservation_fsm reserve_timeout reserve_commit_request = some reserve_committing
reservation_fsm reserve_committing reserve_commit_confirmed = some reserve_start
reservation_fsm reserve_committing reserve_commit_failed = some reserve_start
reservation_fsm ReservationState.reserve_failed reserve_abort_request = some reserve_aborting
reservation_fsm reserve_held reserve_abort_request = some reserve_aborting
reservation_fsm reserve_timeout reserve_abort_request = some reserve_aborting
reservation_fsm _ _ = none

pub data ProvisionState : Type 0 where
  released provisioning provisioned releasing : ProvisionState

pub data ProvisionEvent : Type 0 where
  provision_request provision_confirmed release_request release_confirmed : ProvisionEvent

-- `ProvisionStateMachine`.
unfoldable pub provision_fsm : ProvisionState → ProvisionEvent → Option ProvisionState
provision_fsm released provision_request = some provisioning
provision_fsm provisioning provision_confirmed = some provisioned
provision_fsm provisioned release_request = some releasing
provision_fsm releasing release_confirmed = some released
provision_fsm _ _ = none

pub data LifecycleState : Type 0 where
  created failed terminating passed_end_time terminated : LifecycleState

pub data LifecycleEvent : Type 0 where
  forced_end_notification terminate_request endtime_event terminate_confirmed : LifecycleEvent

-- `LifecycleStateMachine`.
unfoldable pub lifecycle_fsm : LifecycleState → LifecycleEvent → Option LifecycleState
lifecycle_fsm created forced_end_notification = some failed
lifecycle_fsm created terminate_request = some terminating
lifecycle_fsm passed_end_time terminate_request = some terminating
lifecycle_fsm failed terminate_request = some terminating
lifecycle_fsm created endtime_event = some passed_end_time
lifecycle_fsm terminating terminate_confirmed = some terminated
lifecycle_fsm _ _ = none

pub data DataPlaneState : Type 0 where
  deactivated auto_start activating activated auto_end deactivating : DataPlaneState
  activate_failed deactivate_failed unhealthy : DataPlaneState

pub data DataPlaneEvent : Type 0 where
  auto_start_request activate_request activate_confirmed auto_end_request : DataPlaneEvent
  cancel_auto_end_request deactivate_request deactivate_confirm : DataPlaneEvent
  activate_failed deactivate_failed unhealthy : DataPlaneEvent

-- `DataPlaneStateMachine`.
unfoldable pub data_plane_fsm : DataPlaneState → DataPlaneEvent → Option DataPlaneState
data_plane_fsm deactivated auto_start_request = some auto_start
data_plane_fsm deactivated activate_request = some activating
data_plane_fsm auto_start activate_request = some activating
data_plane_fsm activating activate_confirmed = some activated
data_plane_fsm activated auto_end_request = some auto_end
data_plane_fsm auto_end cancel_auto_end_request = some activated
data_plane_fsm activated deactivate_request = some deactivating
data_plane_fsm auto_end deactivate_request = some deactivating
data_plane_fsm auto_start deactivate_request = some deactivated
data_plane_fsm deactivating deactivate_confirm = some deactivated
data_plane_fsm activating DataPlaneEvent.activate_failed = some DataPlaneState.activate_failed
data_plane_fsm deactivating DataPlaneEvent.deactivate_failed = some DataPlaneState.deactivate_failed
data_plane_fsm activated DataPlaneEvent.unhealthy = some DataPlaneState.unhealthy
data_plane_fsm auto_end DataPlaneEvent.unhealthy = some DataPlaneState.unhealthy
data_plane_fsm _ _ = none

-- Tests for one state, `X in fsm.configuration` and `state == X.value`.
abbrev pub is_reserve_start : ReservationState → Bool
is_reserve_start reserve_start = true
is_reserve_start _ = false

abbrev pub is_provisioned : ProvisionState → Bool
is_provisioned provisioned = true
is_provisioned _ = false

abbrev pub is_created : LifecycleState → Bool
is_created created = true
is_created _ = false

abbrev pub is_terminating : LifecycleState → Bool
is_terminating terminating = true
is_terminating _ = false

abbrev pub is_auto_start : Option DataPlaneState → Bool
is_auto_start (some auto_start) = true
is_auto_start _ = false

abbrev pub is_auto_end : Option DataPlaneState → Bool
is_auto_end (some auto_end) = true
is_auto_end _ = false

abbrev pub is_activated : Option DataPlaneState → Bool
is_activated (some activated) = true
is_activated _ = false
