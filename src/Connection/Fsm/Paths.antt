-- ===== src/Connection/Fsm/Paths.antt =====
-- What sequences of events can and cannot do to the state machines.
use su_pa.Base.{
  ℕ, ◌+◌, ◌≤◌, ◌<◌, ◌≡◌, sym, Bool, true, false, List, [], ◌∷◌, Option, none, some, arith, length,
  ◌⊎◌, inl, inr,
}
use su_pa.Connection.Fsm.{
  LifecycleState, created, failed, terminating, passed_end_time, terminated, LifecycleEvent,
  lifecycle_fsm, DataPlaneState, DataPlaneEvent, data_plane_fsm, ReservationState, ReservationEvent,
  reservation_fsm, activated, auto_end, deactivating, activate_confirmed, reserve_held,
  reserve_committing, reserve_timeout, reserve_confirmed,
}
use mathlib.Core.List.{Memᴰ}

-- The state after a list of events, if every one of them is allowed.
module _ {S E : Type 0} (fsm : S → E → Option S) where
  unfoldable pub run : S → List E → Option S
  run s [] = some s
  run s (e ∷ es) = elim (fsm s e) [ none ↦ none | some t ↦ run t es ]

  run-cons :
      (s t : S) (e : E) (es : List E)
      → run s (e ∷ es) ≡ some t
      → (u : S) × (fsm s e ≡ some u) × (run u es ≡ some t)
  unfolding run
  run-cons s t e es h = ground arith

abbrev pub lifecycle_rank : LifecycleState → ℕ
lifecycle_rank created = 0
lifecycle_rank failed = 1
lifecycle_rank passed_end_time = 1
lifecycle_rank terminating = 2
lifecycle_rank terminated = 3

lifecycle_rank_grows :
    (s t : LifecycleState) (e : LifecycleEvent)
    → lifecycle_fsm s e ≡ some t
    → lifecycle_rank s < lifecycle_rank t
unfolding lifecycle_fsm
lifecycle_rank_grows s t e h = ground arith

-- A lifecycle takes at most three steps, and from `Terminated` it takes none: each allowed event
-- leads to a later state.
pub lifecycle_ends :
    (s t : LifecycleState) (es : List LifecycleEvent)
    → run lifecycle_fsm s es ≡ some t
    → lifecycle_rank s + length es ≤ lifecycle_rank t
unfolding run
lifecycle_ends s t [] h = ground arith
lifecycle_ends s t (e ∷ es) h =
    let (u, p, q) = run-cons lifecycle_fsm s t e es h in
    omega (arith, lifecycle_rank_grows s u e p, lifecycle_ends u t es q)

-- The states that a data plane is in only after it was activated.
abbrev pub was_activated : DataPlaneState → Bool
was_activated activated = true
was_activated auto_end = true
was_activated deactivating = true
was_activated DataPlaneState.deactivate_failed = true
was_activated DataPlaneState.unhealthy = true
was_activated _ = false

data_plane_step :
    (s t : DataPlaneState) (e : DataPlaneEvent)
    → data_plane_fsm s e ≡ some t
    → was_activated s ≡ false
    → (e ≡ activate_confirmed) ⊎ (was_activated t ≡ false)
unfolding data_plane_fsm
data_plane_step s t e h n = ground arith

-- A data plane that was not activated is so only after an `activate_confirmed`.
pub activated_needs_confirm :
    (s t : DataPlaneState) (es : List DataPlaneEvent)
    → run data_plane_fsm s es ≡ some t
    → was_activated s ≡ false
    → was_activated t ≡ true
    → Memᴰ activate_confirmed es
unfolding run
activated_needs_confirm s t [] h n y = ground arith
activated_needs_confirm s t (e ∷ es) h n y =
    let (u, p, q) = run-cons data_plane_fsm s t e es h in
    elim (data_plane_step s u e p n) [
      | inl c ↦ Memᴰ.head (sym c)
      | inr n' ↦ Memᴰ.tail (activated_needs_confirm u t es q n' y)
    ]

-- The states in which the resources of the latest version were checked and are held.
abbrev pub is_confirmed : ReservationState → Bool
is_confirmed reserve_held = true
is_confirmed reserve_committing = true
is_confirmed reserve_timeout = true
is_confirmed _ = false

reservation_step :
    (s t : ReservationState) (e : ReservationEvent)
    → reservation_fsm s e ≡ some t
    → is_confirmed s ≡ false
    → (e ≡ reserve_confirmed) ⊎ (is_confirmed t ≡ false)
unfolding reservation_fsm
reservation_step s t e h n = ground arith

-- By events from a state that is not held, committing or timed out, a reservation gets to one of
-- these only if `reserve_confirmed` is among the events.
pub commit_needs_confirm :
    (s t : ReservationState) (es : List ReservationEvent)
    → run reservation_fsm s es ≡ some t
    → is_confirmed s ≡ false
    → is_confirmed t ≡ true
    → Memᴰ reserve_confirmed es
unfolding run
commit_needs_confirm s t [] h n y = ground arith
commit_needs_confirm s t (e ∷ es) h n y =
    let (u, p, q) = run-cons reservation_fsm s t e es h in
    elim (reservation_step s u e p n) [
      | inl c ↦ Memᴰ.head (sym c)
      | inr n' ↦ Memᴰ.tail (commit_needs_confirm u t es q n' y)
    ]
