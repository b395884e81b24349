-- ===== src/Documents/Topology.antt =====
-- `refresh_topology` of src/supa/documents/topology.py, which brings the table of STPs up to date with
-- the NRM. The table is a list of rows, of which the STP ID is the primary key.
pub mod Rows
pub mod Refresh
pub mod Freshness
use su_pa.Base.{
  Text, text_eq, ℕ, ◌+◌, Bool, true, false, not, ◌&&◌, ◌||◌, List, [], ◌∷◌, Option, none, some, ltb,
  if◌then◌else◌,
}
use su_pa.Db.Model.{Topology}
use su_pa.Util.Vlan.{VlanRanges}

-- `STP` of src/supa/nrm/backend.py.
pub record Stp : Type 0 where
  pub topology : Text
  pub stp_id : Text
  pub port_id : Text
  pub vlans : VlanRanges
  pub description : Option Text
  pub is_alias_in : Option Text
  pub is_alias_out : Option Text
  pub bandwidth : ℕ
  pub enabled : Bool

abbrev pub new_row : Stp → Topology
new_row s = record {
  stp_id = s.stp_id;
  port_id = s.port_id;
  vlans = s.vlans;
  bandwidth = s.bandwidth;
  description = s.description;
  is_alias_in = s.is_alias_in;
  is_alias_out = s.is_alias_out;
  enabled = s.enabled;
}

abbrev pub update_row : Stp → Topology → Topology
update_row s t = record t {
  port_id = s.port_id;
  vlans = s.vlans;
  description = s.description;
  is_alias_in = s.is_alias_in;
  is_alias_out = s.is_alias_out;
  bandwidth = s.bandwidth;
  enabled = s.enabled;
}

-- The row that the STP's ID finds is updated; where there is none, one is added.
unfoldable pub merge_stp : Stp → List Topology → List Topology
merge_stp s [] = new_row s ∷ []
merge_stp s (t ∷ ts) = if text_eq t.stp_id s.stp_id then update_row s t ∷ ts else t ∷ merge_stp s ts

-- The loop over the NRM's STPs skips those of another topology.
unfoldable pub merge_stps : Text → List Stp → List Topology → List Topology
unfolding merge_stp
merge_stps ours [] rows = rows
merge_stps ours (s ∷ ss) rows =
    merge_stps ours ss (if text_eq s.topology ours then merge_stp s rows else rows)

-- `stp_id in nrm_stp_ids`, the IDs of all that the NRM listed.
unfoldable pub is_listed : Text → List Stp → Bool
is_listed i [] = false
is_listed i (s ∷ ss) = text_eq s.stp_id i || is_listed i ss

abbrev pub disable_row : List Stp → Topology → Topology
disable_row stps t =
    if t.enabled && not (is_listed t.stp_id stps) then record t { enabled = false } else t

-- The loop over the enabled rows disables those that the NRM no longer lists.
unfoldable pub disable_vanished : List Stp → List Topology → List Topology
disable_vanished stps [] = []
disable_vanished stps (t ∷ ts) = disable_row stps t ∷ disable_vanished stps ts

-- `settings.topology`, `settings.manual_topology` and `settings.topology_freshness`.
pub record Settings : Type 0 where
  pub topology : Text
  pub manual_topology : Bool
  pub topology_freshness : ℕ

-- The table, `last_refresh`, and how often `backend.topology()` was called.
pub record Refreshed : Type 0 where
  pub rows : List Topology
  pub last_refresh : ℕ
  pub locked : Bool
  pub fetches : ℕ

-- What `backend.topology()` does: it returns STPs or raises an exception.
pub data Fetched : Type 0 where
  stps : List Stp → Fetched
  exception : Fetched

-- What a refresh meets: the time, what the NRM does, and whether the database session fails.
pub record World : Type 0 where
  pub now : ℕ
  pub nrm : Fetched
  pub session_fails : Bool

-- A state, and whether an exception is raised.
pub record Raised : Type 0 where
  pub state : Refreshed
  pub raises : Bool

-- The database session, and what follows it. An exception in the session is rolled back and leaves
-- the function with the lock held.
abbrev pub store : Settings → ℕ → List Stp → Bool → Refreshed → Raised
store c now ss true r = record { state = r; raises = true }
store c now ss false r = record {
  state = record r {
    rows = disable_vanished ss (merge_stps c.topology ss r.rows);
    last_refresh = now;
    locked = false;
  };
  raises = false;
}

-- The call of the NRM, of which an exception is raised again once the lock is released.
abbrev pub fetch : Settings → World → Fetched → Refreshed → Raised
fetch c w exception r = record { state = record r { locked = false }; raises = true }
fetch c w (stps ss) r = store c w.now ss w.session_fails r

-- With the lock held.
abbrev pub refresh_stale : Settings → World → Refreshed → Raised
refresh_stale c w r =
    if ltb w.now (r.last_refresh + c.topology_freshness)
    then record { state = record r { locked = false }; raises = false }
    else fetch c w w.nrm (record r { fetches = r.fetches + 1 })

-- `refresh_topology`. A lock that is held is not acquired within its timeout.
unfoldable pub refresh_topology : Settings → World → Refreshed → Raised
unfolding merge_stps disable_vanished
refresh_topology c w r =
    if c.manual_topology
    then record { state = r; raises = false }
    else if r.locked
    then record { state = r; raises = false }
    else refresh_stale c w (record r { locked = true })

-- `refresh_topology` at each request of a document; the exceptions end the request only.
unfoldable pub refresh_all : Settings → List World → Refreshed → Refreshed
unfolding refresh_topology
refresh_all c [] r = r
refresh_all c (w ∷ ws) r = refresh_all c ws (refresh_topology c w r).state

-- The STPs that the topology document lists.
unfoldable pub exposed : List Topology → List Topology
exposed [] = []
exposed (t ∷ ts) = let rest = exposed ts in if t.enabled then t ∷ rest else rest
