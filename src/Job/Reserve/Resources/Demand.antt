-- ===== src/Job/Reserve/Resources/Demand.antt =====
-- The bandwidth of the resources in use, against the reservations.

use su_pa.Base.{
  Text, text_eq, ℕ, zero, suc, ◌+◌, ◌<◌, ◌≤◌, ◌≡◌, ◌||◌, List, [], ◌∷◌, ◌++◌, Option, none, some,
  arith, ltb, if◌then◌else◌,
}
use su_pa.Db.Model.{Reservation, Schedule, P2PCriteria, p2p_criteria}
use su_pa.Job.Reserve.Resources.{
  Usage, sum_bandwidth, usage_of, copies, multiplicity, usage_rows, StpResources, group_resources,
  stp_resources_in_use,
}
use su_pa.Job.Reserve.Stp.{used_bandwidth}

-- The bandwidth that a reservation takes at an STP while the schedules run.
abbrev pub demand_of : Text → Option P2PCriteria → ℕ
demand_of stp none = 0
demand_of stp (some c) =
    if text_eq c.src.stp_id stp || text_eq c.dst.stp_id stp then c.bandwidth else 0

abbrev pub demand : List Schedule → Text → Reservation → ℕ
demand current stp r = if ltb 0 (multiplicity current r) then demand_of stp (p2p_criteria r) else 0

abbrev pub total_demand : List Schedule → Text → List Reservation → ℕ
total_demand current stp [] = 0
total_demand current stp (r ∷ rs) = demand current stp r + total_demand current stp rs

sum-append : (us ws : List Usage) → sum_bandwidth (us ++ ws) ≡ sum_bandwidth us + sum_bandwidth ws
unfolding sum_bandwidth
sum-append [] ws = omega arith
sum-append (u ∷ us) ws = omega (arith, sum-append us ws)

usage_of-demand :
    (stp : Text) (c : Option P2PCriteria) → demand_of stp c ≤ sum_bandwidth (usage_of stp c)
unfolding sum_bandwidth
usage_of-demand stp none = omega arith
usage_of-demand stp (some c) = ground arith

counted : (n : ℕ) (us : List Usage) → 0 < n → sum_bandwidth us ≤ sum_bandwidth (copies n us)
counted zero us p = absurd (omega arith)
counted (suc n) us p = omega (arith, sum-append us (copies n us))

demand_row :
    (current : List Schedule) (stp : Text) (r : Reservation)
    → demand current stp r
      ≤ sum_bandwidth (copies (multiplicity current r) (usage_of stp (p2p_criteria r)))
demand_row current stp r = ground (
  arith,
  usage_of-demand stp (p2p_criteria r),
  counted (multiplicity current r) (usage_of stp (p2p_criteria r)),
)

demand_rows :
    (current : List Schedule) (stp : Text) (db : List Reservation)
    → total_demand current stp db ≤ sum_bandwidth (usage_rows current stp db)
unfolding usage_rows
demand_rows current stp [] = omega arith
demand_rows current stp (r ∷ rs) = omega (
  arith,
  demand_row current stp r,
  demand_rows current stp rs,
  sum-append (copies (multiplicity current r) (usage_of stp (p2p_criteria r)))
      (usage_rows current stp rs),
)

group_demand :
    (us : List Usage) (entry : Option StpResources)
    → group_resources us ≡ some entry
    → used_bandwidth entry ≡ sum_bandwidth us
unfolding group_resources sum_bandwidth
group_demand [] entry h = ground arith
group_demand (u ∷ us) entry h = ground arith

-- The bandwidth in use at an STP is at least the sum of the bandwidths of all active reservations
-- at it whose current schedule overlaps.
pub demand_is_used :
    (db : List Reservation) (r : Reservation) (stp : Text) (entry : Option StpResources)
    → stp_resources_in_use db r stp ≡ some entry
    → total_demand r.schedules stp db ≤ used_bandwidth entry
unfolding stp_resources_in_use
demand_is_used db r stp entry e =
    rw (group_demand (usage_rows r.schedules stp db) entry e) (demand_rows r.schedules stp db)
