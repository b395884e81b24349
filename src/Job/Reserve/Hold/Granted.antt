-- ===== src/Job/Reserve/Hold/Granted.antt =====
-- What `ReserveJob` grants a new reservation, against the other reservations in the database.
use su_pa.Base.{
  Text, text_eq, ℕ, ◌+◌, ◌≤◌, ◌≡◌, ◌≢◌, refl, sym, ap, ◌∙◌, true, false, Option, some, arith, inl,
  inr, Option-cases, Bool-cases,
}
use mathlib.Core.List.{Memᴰ}
use su_pa.Db.Model.{Reservation, Topology, Endpoint, P2PCriteria, p2p_criteria}
use su_pa.Job.Reserve.Resources.{StpResources, stp_resources_in_use}
use su_pa.Job.Reserve.Resources.InUse.{Overlaps, Uses, selected_is_used}
use su_pa.Job.Reserve.Resources.Demand.{total_demand, demand_is_used}
use su_pa.Job.Reserve.Stp.{◌>>=◌ as ◌then_check◌}
use su_pa.Job.Reserve.Stp.{
  Checked, ok, refuse, crash, Choice, find_stp, urn_of, Candidates, select_vlans,
}
use su_pa.Job.Reserve.Stp.Sound.{Sound, is_used, process_stp-Sound, process_stp_unreadable}
use su_pa.Job.Reserve.Stp.Select.{IsChoice, select_vlans-Selected, Selected}
use su_pa.Job.Reserve.Hold.{Database, Ports, process, check_ends, check_criteria}
use su_pa.Util.Vlan.{VlanRanges, contains, len}
use su_pa.Util.Vlan.Algebra.{InRange}

-- No active reservation that overlaps selected the VLAN at the STP.
abbrev pub IsUnshared : Database → Reservation → Text → ℕ → Type 0
IsUnshared d r stp vlan =
    (other : Reservation) (c : P2PCriteria)
    → Memᴰ other d.reservations
    → Overlaps r other
    → p2p_criteria other ≡ some c
    → ¬ Uses stp c vlan

-- What one end of a reservation is granted: an enabled STP of our topology with its port, a VLAN of the requested ones
-- that it offers and that no one shares, and bandwidth besides that of the others.
pub record IsGranted (d : Database) (r : Reservation) (bandwidth : ℕ) (e : Endpoint)
    (port_id : Text) (vlan : ℕ) : Type 0 where
  pub stp : Topology
  pub known : find_stp e.stp_id d.topology ≡ some stp
  pub enabled : stp.enabled ≡ true
  pub ours : text_eq (urn_of e.domain e.topology) d.topology_id ≡ true
  pub port : port_id ≡ stp.port_id
  pub requested : contains e.vlans vlan ≡ true
  pub offered : contains stp.vlans vlan ≡ true
  pub unshared : IsUnshared d r e.stp_id vlan
  pub fits : bandwidth + total_demand r.schedules e.stp_id d.reservations ≤ stp.bandwidth

unused-IsUnshared :
    (d : Database) (r : Reservation) (stp : Text) (vlan : ℕ) (entry : Option StpResources)
    → stp_resources_in_use d.reservations r stp ≡ some entry
    → is_used entry vlan ≡ false
    → IsUnshared d r stp vlan
unused-IsUnshared d r stp vlan entry e free other c m o p u =
    let (s, is_some, held) = selected_is_used d.reservations r other stp c vlan entry m o p u e in
    ground arith

Sound-IsGranted :
    (d : Database) (r : Reservation) (bandwidth : ℕ) (e : Endpoint) (entry : Option StpResources)
    (k : Candidates) (vlan : ℕ)
    → stp_resources_in_use d.reservations r e.stp_id ≡ some entry
    → Sound d.topology_id d.topology entry bandwidth e k
    → contains k.vlans vlan ≡ true
    → IsGranted d r bandwidth e k.port_id vlan
Sound-IsGranted d r bandwidth e entry k vlan in_use (t, f, (enabled, ours, fits), port, _, free)
      held =
    record {
      stp = t;
      known = f;
      enabled = enabled;
      ours = ours;
      port = port;
      requested = ground (arith, free vlan);
      offered = ground (arith, free vlan);
      unshared = unused-IsUnshared d r e.stp_id vlan entry in_use (ground (arith, free vlan));
      fits = omega (arith, fits, demand_is_used d.reservations r e.stp_id entry in_use);
    }

bind_ok :
    {A B : Type 0}
    → (m : Checked A) (f : A → Checked B) (b : B) → ◌then_check◌ m f ≡ ok b
    → (a : A) × (m ≡ ok a) × (f a ≡ ok b)
bind_ok (ok a) f b h = (a, refl, h)
bind_ok (refuse e) f b h = ground arith
bind_ok crash f b h = ground arith

abbrev value_of : {A : Type 0} → A → Checked A → A
value_of a (ok b) = b
value_of a _ = a

made_of : {A : Type 0} {a b : A} → ok a ≡ ok b → a ≡ b
made_of {a = a} e = ap (value_of a) e

distinct_ends :
    (d : Database) (r : Reservation) (c : P2PCriteria) (p : Ports)
    → check_criteria d r c ≡ ok p
    → (text_eq c.src.stp_id c.dst.stp_id ≡ false) × (check_ends d r c ≡ ok p)
unfolding check_criteria
distinct_ends d r c p h = elim (Bool-cases (text_eq c.src.stp_id c.dst.stp_id)) [
  | inl y ↦ ground arith
  | inr n ↦ (n, ground arith)
]

process-IsGranted :
    (d : Database) (r : Reservation) (c : P2PCriteria) (e : Endpoint) (k : Candidates)
    → InRange e.vlans
    → ((t : Topology) → find_stp e.stp_id d.topology ≡ some t → InRange t.vlans)
    → process d r c e ≡ ok k
    → (len k.vlans ≢ 0)
      × InRange k.vlans
      × ((vlan : ℕ) → contains k.vlans vlan ≡ true → IsGranted d r c.bandwidth e k.port_id vlan)
process-IsGranted d r c e k he ht h =
    elim (Option-cases (stp_resources_in_use d.reservations r e.stp_id)) [
      | inl n ↦ absurd (process_stp_unreadable d.topology_id d.topology c.bandwidth e k (rw n at h))
      | inr (entry, in_use) ↦
          let s =
            process_stp-Sound d.topology_id d.topology entry c.bandwidth e k he ht
              (rw in_use at h) in
          (
            s.4,
            (λ v m. he v (ground (arith, s.5 v))),
            λ vlan held. Sound-IsGranted d r c.bandwidth e entry k vlan in_use s held,
          )
    ]

ok-Selected :
    (choice : Choice) (src dst : VlanRanges) (vlans : ℕ × ℕ)
    → IsChoice choice
    → InRange src
    → len src ≢ 0
    → len dst ≢ 0
    → select_vlans choice src dst ≡ ok vlans
    → Selected src dst vlans
ok-Selected choice src dst vlans law h s d e =
    let (q, same, selected) = select_vlans-Selected choice src dst law h s d in
    rw (made_of (sym e ∙ same)) selected

-- If `ReserveJob` accepts a new reservation, where the requested and the offered VLANs are within
-- the range and `random.choice` picks an element, then each end is granted: its STP is enabled
-- and ours, the selected VLAN is one that was requested, that the STP offers and that no active,
-- overlapping reservation selected there, and the requested bandwidth fits into the STP's
-- capacity together with the bandwidths of all active, overlapping reservations. The two STPs
-- differ.
pub check_criteria-IsGranted :
    (d : Database) (r : Reservation) (c : P2PCriteria) (p : Ports)
    → IsChoice d.choice
    → InRange c.src.vlans
    → InRange c.dst.vlans
    → ((stp : Text) (t : Topology) → find_stp stp d.topology ≡ some t → InRange t.vlans)
    → check_criteria d r c ≡ ok p
    → (text_eq c.src.stp_id c.dst.stp_id ≡ false)
      × IsGranted d r c.bandwidth c.src p.src_port_id p.src_selected_vlan
      × IsGranted d r c.bandwidth c.dst p.dst_port_id p.dst_selected_vlan
check_criteria-IsGranted d r c p law hs hd ht h =
    let (differ, ends) = distinct_ends d r c p h in
    let (src, src_ok, rest) = bind_ok _ _ p ends in
    let (dst, dst_ok, last) = bind_ok _ _ p rest in
    let (vlans, chosen, made) = bind_ok _ _ p last in
    let (some_src, src_in, src_granted) =
      process-IsGranted d r c c.src src hs (ht c.src.stp_id) src_ok in
    let (some_dst, _, dst_granted) =
      process-IsGranted d r c c.dst dst hd (ht c.dst.stp_id) dst_ok in
    let (in_src, in_dst, _) =
      ok-Selected d.choice src.vlans dst.vlans vlans law src_in some_src some_dst chosen in
    (
      differ,
      rw (← made_of made) (src_granted vlans.0 in_src),
      rw (← made_of made) (dst_granted vlans.1 in_dst),
    )
