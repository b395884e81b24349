-- ===== src/Nrm/Ciena.antt =====
-- src/supa/nrm/backends/ciena8190.py: a Ciena 8190 switch, configured over NETCONF. The switch is what
-- it answers to the requests, and the tables that are read of it; both are arguments. All failures
-- are an NsiException of the class GenericRmError; their texts are left out.
pub mod Tables
pub mod Atomic
pub mod Written
pub mod Lookup
pub mod Ports
use su_pa.Base.{
  Text, codes, is_empty, text_eq, ℕ, ◌+◌, Bool, true, false, not, ◌&&◌, ◌||◌, List, [], ◌∷◌, ◌++◌,
  Option, none, some, ltb, leb, ◌==◌, if◌then◌else◌, length,
}
use su_pa.Util.Nsi.{split}
use su_pa.Util.Vlan.Parse.{int}
use su_pa.Util.Vlan.Print.{decimal}

-- The configurations that the static methods of `Ciena8190` write out.
pub data Edit : Type 0 where
  -- The name and the VLAN.
  create_classifier : Text → ℕ → Edit
  -- The name and the description.
  create_forwarding_domain : Text → Text → Edit
  -- The name, the forwarding domain, the port, the classifier and the description.
  create_flow_point : Text → Text → Text → Text → Text → Edit
  delete_classifier delete_forwarding_domain delete_flow_point : Text → Edit
  disable_flow_point : Text → Edit

-- A request to the NETCONF session; the datastore, candidate or running, is the same in all.
pub data Request : Type 0 where
  edit_config : Edit → Request
  validate discard_changes commit : Request

-- Whether the datastore is the candidate one, and whether the switch accepts a request, the last of
-- those made so far.
pub record Manager : Type 0 where
  pub is_candidate : Bool
  pub accepts : List Request → Bool

-- The requests made, and the value or the exception.
pub record Ran (A : Type 0) : Type 0 where
  pub requests : List Request
  pub result : Option A

-- `_discard`; an exception of its own is an NsiException too.
abbrev pub discard : Manager → List Request → List Request
discard m h = if m.is_candidate then h ++ discard_changes ∷ [] else h

abbrev pub unit_or_none : Bool → Option (Unit {0})
unit_or_none true = some tt
unit_or_none false = none

-- A request in a `try` whose `except` discards the changes.
abbrev pub attempt : Manager → Request → List Request → Ran (Unit {0})
attempt m q h =
    let h' = h ++ q ∷ [] in
    let ok = m.accepts h' in
    record { requests = if ok then h' else discard m h'; result = unit_or_none ok }

abbrev pub ran_then : {A B : Type 0} → Ran A → (List Request → A → Ran B) → Ran B
ran_then r f = elim (r.result) [
  | none ↦ record { requests = r.requests; result = none }
  | some a ↦ f r.requests a
]

-- `_create_classifier` and its like, one after another.
unfoldable pub edit_all : Manager → List Edit → List Request → Ran (Unit {0})
edit_all m [] h = record { requests = h; result = some tt }
edit_all m (e ∷ es) h = ran_then (attempt m (edit_config e) h) (λ h' u. edit_all m es h')

-- `_commit`, which does nothing where the running configuration is written.
abbrev pub commit_changes : Manager → List Request → Ran (Unit {0})
commit_changes m h =
    if m.is_candidate then attempt m commit h else record { requests = h; result = some tt }

-- The edits of a primitive, `_validate` and `_commit`.
unfoldable pub apply_edits : Manager → List Edit → Ran (Unit {0})
unfolding edit_all
apply_edits m es =
    ran_then (edit_all m es []) λ h u. ran_then (attempt m validate h) λ h' v. commit_changes m h'

-- What the backend reads of an STP of the topology table.
pub record PortStp : Type 0 where
  pub stp_id : Text
  pub port_id : Text
  pub vlans : Text

-- An entry of `_ports`: the STP of a range of VLANs on a port.
pub record PortRange : Type 0 where
  pub port_id : Text
  pub start_vlan : ℕ
  pub end_vlan : ℕ
  pub stp_id : Text

abbrev pub same_range : PortRange → PortRange → Bool
same_range a b =
    text_eq a.port_id b.port_id && a.start_vlan == b.start_vlan && a.end_vlan == b.end_vlan

-- An assignment to a key of a dictionary keeps the place of a key that is there.
abbrev pub set_range : PortRange → List PortRange → List PortRange
set_range e [] = e ∷ []
set_range e (x ∷ xs) = if same_range x e then e ∷ xs else x ∷ set_range e xs

abbrev pub bounds_of : List (Option ℕ) → Option (ℕ × ℕ)
bounds_of (some a ∷ []) = some (a, a)
bounds_of (some a ∷ some b ∷ []) = some (a, b)
bounds_of _ = none

abbrev pub ints_of : List Text → List (Option ℕ)
ints_of [] = []
ints_of (s ∷ ss) = int s ∷ ints_of ss

-- One part of `stp.vlans.split(",")`; none is a ValueError.
unfoldable pub range_of : Text → Option (ℕ × ℕ)
unfolding split int
range_of s = bounds_of (ints_of (split b'-' s))

abbrev pub add_ranges : PortStp → List Text → List PortRange → Option (List PortRange)
add_ranges s [] es = some es
add_ranges s (t ∷ ts) es = elim (range_of t) [
  | none ↦ none
  | some r ↦ add_ranges s ts (
      set_range
        (record { port_id = s.port_id; start_vlan = r.0; end_vlan = r.1; stp_id = s.stp_id }) es)
]

abbrev pub ports_from : List PortStp → List PortRange → Option (List PortRange)
ports_from [] es = some es
ports_from (s ∷ ss) es = elim (add_ranges s (split b',' s.vlans) es) [
  | none ↦ none
  | some es' ↦ ports_from ss es'
]

-- `_get_ports`.
unfoldable pub get_ports : List PortStp → Option (List PortRange)
unfolding range_of split
get_ports stps = ports_from stps []

-- `_get_stp_id`, in the order of the dictionary of the port; none is an NsiException.
unfoldable pub get_stp_id : Text → ℕ → List PortRange → Option Text
get_stp_id port vlan [] = none
get_stp_id port vlan (e ∷ es) =
    if text_eq e.port_id port && leb e.start_vlan vlan && leb vlan e.end_vlan
    then some e.stp_id
    else get_stp_id port vlan es

-- The arguments of a method.
pub record Circuit : Type 0 where
  pub src_port_id : Text
  pub src_vlan : ℕ
  pub dst_port_id : Text
  pub dst_vlan : ℕ
  pub circuit_id : Text

-- "opennsa-{stp}-{vlan}" and "opennsa-{src_stp}-{dst_stp}-{src_vlan}-{dst_vlan}".
unfoldable pub end_name : Text → ℕ → Text
unfolding decimal
end_name stp vlan = codes "opennsa-" ++ (stp ++ b'-' ∷ decimal vlan)

unfoldable pub domain_name : Text → Text → ℕ → ℕ → Text
unfolding decimal
domain_name src dst v w =
    codes "opennsa-" ++ (src ++ b'-' ∷ (dst ++ b'-' ∷ (decimal v ++ b'-' ∷ decimal w)))

abbrev pub activate_edits : Circuit → Text → Text → List Edit
activate_edits c src dst =
    let fd = domain_name src dst c.src_vlan c.dst_vlan in
    let s = end_name src c.src_vlan in
    let d = end_name dst c.dst_vlan in
    create_classifier s c.src_vlan
    ∷ create_classifier d c.dst_vlan
    ∷ create_forwarding_domain fd fd
    ∷ create_flow_point s fd c.src_port_id s s
    ∷ create_flow_point d fd c.dst_port_id d d
    ∷ []

abbrev pub refused : Ran (Unit {0})
refused = record { requests = []; result = none }

abbrev pub activate_between : Manager → Circuit → Option Text → Option Text → Ran (Unit {0})
activate_between m c none dst = refused
activate_between m c (some src) none = refused
activate_between m c (some src) (some dst) = apply_edits m (activate_edits c src dst)

-- `activate`, which then returns a random circuit ID.
unfoldable pub activate : Manager → List PortRange → Circuit → Ran (Unit {0})
activate m ports c =
    if not (c.src_vlan == c.dst_vlan)
    then refused
    else activate_between m c (get_stp_id c.src_port_id c.src_vlan ports)
        (get_stp_id c.dst_port_id c.dst_vlan ports)
