-- ===== src/Job/Reserve/Resources.antt =====
-- `_stp_resources_in_use` of src/supa/job/reserve.py: the query as the joins that it makes. The
-- VLANs of a group, which the query joins by commas, are kept as a list.
pub mod InUse
pub mod Demand
pub mod Uncounted
use su_pa.Base.{
  Text, text_eq, ℕ, zero, suc, ◌+◌, Bool, true, false, not, ◌&&◌, List, [], ◌∷◌, ◌++◌, Option, none,
  some, ltb, ◌==◌, if◌then◌else◌,
}
use su_pa.Connection.Fsm.{
  ReservationState, reserve_held, reserve_committing, reserve_start, LifecycleState,
  passed_end_time, terminated,
}
use su_pa.Db.Model.{Reservation, Schedule, P2PCriteria, p2p_criteria}
use su_pa.Util.Vlan.{VlanRanges, init, ◌>>=◌}

abbrev pub is_live : LifecycleState → Bool
is_live LifecycleState.failed = false
is_live passed_end_time = false
is_live terminated = false
is_live _ = true

abbrev pub holds_resources : ReservationState → Bool
holds_resources reserve_held = true
holds_resources reserve_committing = true
holds_resources reserve_start = true
holds_resources _ = false

abbrev pub is_active : Reservation → Bool
is_active r = is_live r.lifecycle_state && holds_resources r.reservation_state

abbrev pub overlaps : Schedule → Schedule → Bool
overlaps current s = ltb current.start_time s.end_time && ltb s.start_time current.end_time

-- The rows of the join with `CurrentSchedule`, for one schedule of another reservation.
abbrev pub count_overlaps : List Schedule → Schedule → ℕ
count_overlaps [] s = 0
count_overlaps (c ∷ cs) s =
    let rest = count_overlaps cs s in if overlaps c s then suc rest else rest

-- The rows of the join with `Schedule`, at the version of the reservation.
abbrev pub count_joined : List Schedule → ℕ → List Schedule → ℕ
count_joined current version [] = 0
count_joined current version (s ∷ ss) =
    let rest = count_joined current version ss in
    if s.version == version then count_overlaps current s + rest else rest

-- How often a reservation stands in `overlap_active`.
abbrev pub multiplicity : List Schedule → Reservation → ℕ
multiplicity current r = if is_active r then count_joined current r.version r.schedules else 0

-- A row of the main query, before grouping: a bandwidth and a selected VLAN.
pub record Usage : Type 0 where
  pub bandwidth : ℕ
  pub vlan : Option ℕ

abbrev pub same_vlan : Option ℕ → Option ℕ → Bool
same_vlan none none = true
same_vlan none (some w) = false
same_vlan (some v) none = false
same_vlan (some v) (some w) = v == w

-- The unpivoted rows of one reservation for an STP; `union` leaves equal rows once.
abbrev pub usage_of : Text → Option P2PCriteria → List Usage
usage_of stp none = []
usage_of stp (some c) =
    let from_src : Usage = record { bandwidth = c.bandwidth; vlan = c.src.selected_vlan } in
    let from_dst : Usage = record { bandwidth = c.bandwidth; vlan = c.dst.selected_vlan } in
    if text_eq c.src.stp_id stp
    then (if text_eq c.dst.stp_id stp && not (same_vlan c.src.selected_vlan c.dst.selected_vlan)
        then from_src ∷ from_dst ∷ []
        else from_src ∷ [])
    else if text_eq c.dst.stp_id stp
    then from_dst ∷ []
    else []

abbrev pub copies : ℕ → List Usage → List Usage
copies zero us = []
copies (suc n) us = us ++ copies n us

-- The rows of the group of an STP.
unfoldable pub usage_rows : List Schedule → Text → List Reservation → List Usage
usage_rows current stp [] = []
usage_rows current stp (r ∷ rs) =
    copies (multiplicity current r) (usage_of stp (p2p_criteria r)) ++ usage_rows current stp rs

unfoldable pub sum_bandwidth : List Usage → ℕ
sum_bandwidth [] = 0
sum_bandwidth (u ∷ us) = u.bandwidth + sum_bandwidth us

abbrev pub cons_vlan : Option ℕ → List ℕ → List ℕ
cons_vlan none vs = vs
cons_vlan (some v) vs = v ∷ vs

-- `group_concat`, which leaves out what is NULL.
unfoldable pub group_vlans : List Usage → List ℕ
group_vlans [] = []
group_vlans (u ∷ us) = cons_vlan u.vlan (group_vlans us)

-- `StpResources`.
pub record StpResources : Type 0 where
  pub bandwidth : ℕ
  pub vlans : VlanRanges

-- The entry of the group of an STP, if it has rows; `none` is a ValueError of `VlanRanges`.
unfoldable pub group_resources : List Usage → Option (Option StpResources)
unfolding sum_bandwidth group_vlans
group_resources [] = some none
group_resources (u ∷ us) = do
  v ← init (group_vlans (u ∷ us))
  some (some (record { bandwidth = sum_bandwidth (u ∷ us); vlans = v }))

-- The entry of `_stp_resources_in_use` for an STP.
unfoldable pub stp_resources_in_use :
    List Reservation → Reservation → Text → Option (Option StpResources)
unfolding usage_rows group_resources
stp_resources_in_use db r stp = group_resources (usage_rows r.schedules stp db)
