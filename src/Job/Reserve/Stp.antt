-- ===== src/Job/Reserve/Stp.antt =====
-- `_process_stp` and `_select_vlans` of src/supa/job/reserve.py.
pub mod Sound
pub mod Select
use su_pa.Base.{
  Text, text_eq, ℕ, ◌+◌, not, ◌||◌, List, [], ◌∷◌, ◌++◌, Option, none, some, ltb, ◌==◌,
  if◌then◌else◌,
}
use su_pa.Connection.Error.{
  NsiError, unknown_stp, invalid_label_format, capacity_unavailable, stp_unavailable,
}
use su_pa.Db.Model.{Endpoint, Topology}
use su_pa.Job.Reserve.Resources.{StpResources}
use su_pa.Util.Nsi.{urn_prefix, colon}
use su_pa.Util.Vlan.{VlanRanges, elements, len, and, sub}

-- A value, an NsiException, or a ValueError of `VlanRanges`.
pub data Checked (A : Type 0) : Type 0 where
  ok : A → Checked A
  refuse : NsiError → Checked A
  crash : Checked A

infixl 5 ◌>>=◌
abbrev pub ◌>>=◌ : {A B : Type 0} → Checked A → (A → Checked B) → Checked B
ok a >>= f = f a
refuse e >>= f = refuse e
crash >>= f = crash

abbrev pub or_crash : {A : Type 0} → Option A → Checked A
or_crash none = crash
or_crash (some a) = ok a

-- `query(Topology).filter(Topology.stp_id == …).one_or_none()`.
unfoldable pub find_stp : Text → List Topology → Option Topology
find_stp stp [] = none
find_stp stp (t ∷ ts) = if text_eq t.stp_id stp then some t else find_stp stp ts

abbrev pub urn_of : Text → Text → Text
urn_of domain topology = urn_prefix ++ colon ∷ (domain ++ colon ∷ topology)

-- The STP of the request, if it is ours and enabled.
abbrev pub known_stp : Text → Endpoint → Option Topology → Checked Topology
known_stp topology_id e none = refuse unknown_stp
known_stp topology_id e (some t) =
    if not t.enabled || not (text_eq (urn_of e.domain e.topology) topology_id)
    then refuse unknown_stp
    else ok t

abbrev pub used_bandwidth : Option StpResources → ℕ
used_bandwidth none = 0
used_bandwidth (some s) = s.bandwidth

abbrev pub available_vlans : VlanRanges → Option StpResources → Checked VlanRanges
available_vlans v none = ok v
available_vlans v (some s) = or_crash (sub v (elements s.vlans))

abbrev pub non_empty : VlanRanges → NsiError → Checked VlanRanges
non_empty v e = if len v == 0 then refuse e else ok v

-- The available bandwidth is `t.bandwidth - used`, which may be negative, against the request.
abbrev pub enough_bandwidth : ℕ → ℕ → VlanRanges → Checked VlanRanges
enough_bandwidth capacity wanted v =
    if ltb capacity wanted then refuse capacity_unavailable else ok v

-- What the job keeps of an STP: the requested VLANs that are available, and the port.
pub record Candidates : Type 0 where
  pub vlans : VlanRanges
  pub port_id : Text

-- `_process_stp` for the end `e`, given the STP's entry in the resources in use.
unfoldable pub process_stp :
    Text → List Topology → Option (Option StpResources) → ℕ → Endpoint → Checked Candidates
process_stp topology_id table in_use bandwidth e = do
  used ← or_crash in_use
  t ← known_stp topology_id e (find_stp e.stp_id table)
  requested ← non_empty e.vlans invalid_label_format
  offered ← available_vlans t.vlans used
  sized ← enough_bandwidth t.bandwidth (bandwidth + used_bandwidth used) offered
  available ← non_empty sized stp_unavailable
  both ← or_crash (and requested (elements available))
  candidates ← non_empty both stp_unavailable
  ok (record { vlans = candidates; port_id = t.port_id })

-- `random.choice` is a function of what it chooses from and of a draw.
abbrev pub Choice : Type 0
Choice = ℕ → List ℕ → ℕ

abbrev pub choose_shared : Choice → VlanRanges → VlanRanges → VlanRanges → ℕ × ℕ
choose_shared choice src dst shared =
    if len shared == 0
    then (choice 0 (elements src), choice 1 (elements dst))
    else (let vlan : ℕ = choice 0 (elements shared) in (vlan, vlan))

-- `_select_vlans`.
unfoldable pub select_vlans : Choice → VlanRanges → VlanRanges → Checked (ℕ × ℕ)
select_vlans choice src dst = do
  shared ← or_crash (and src (elements dst))
  ok (choose_shared choice src dst shared)
