-- ===== src/Nrm/Ciena/Tables.antt =====
-- The circuits on the switch, `deactivate` and `terminate` of src/supa/nrm/backends/ciena8190.py. What is
-- read of the switch is in three tables, which the code keeps as dictionaries by name.
use su_pa.Base.{
  Text, is_empty, text_eq, ℕ, Bool, false, not, ◌&&◌, ◌||◌, List, [], ◌∷◌, ◌++◌, Option, none, some,
  ◌==◌, if◌then◌else◌, length,
}
use su_pa.Nrm.Ciena.{
  Edit, delete_classifier, delete_forwarding_domain, delete_flow_point, disable_flow_point, Manager,
  Ran, Circuit, refused, apply_edits,
}

pub record Classifier : Type 0 where
  pub name : Text
  pub vlan : ℕ

pub record FlowPoint : Type 0 where
  pub name : Text
  pub admin_state : Bool
  pub port : Text
  pub fd : Text
  pub classifiers : List Text

pub record Tables : Type 0 where
  pub classifiers : List Classifier
  pub forwarding_domains : List Text
  pub flow_points : List FlowPoint

-- A key and a value of the lookup table.
pub record Ends : Type 0 where
  pub src_port : Text
  pub src_vlan : ℕ
  pub dst_port : Text
  pub dst_vlan : ℕ

pub record Found : Type 0 where
  pub fd : Text
  pub flow_points : List Text
  pub classifiers : List Text

-- The lookup table, of which the newest assignment to a key counts, or an exception.
pub data Lookup : Type 0 where
  lookup : List (Ends × Found) → Lookup
  nsi_exception key_error : Lookup

abbrev pub vlan_of : Text → List Classifier → Option ℕ
vlan_of name [] = none
vlan_of name (c ∷ cs) = if text_eq c.name name then some c.vlan else vlan_of name cs

abbrev pub any_not_one : List FlowPoint → Bool
any_not_one [] = false
any_not_one (f ∷ fs) = not (length f.classifiers == 1) || any_not_one fs

-- The flow points of a forwarding domain.
unfoldable pub points_of : Text → List FlowPoint → List FlowPoint
points_of fd [] = []
points_of fd (f ∷ fs) = let rest = points_of fd fs in if text_eq f.fd fd then f ∷ rest else rest

-- `classifiers[fp["classifiers"][0]]["vlan"]`; none is a KeyError.
abbrev pub point_vlan : List Classifier → FlowPoint → Option ℕ
point_vlan cs f = elim (f.classifiers) [ [] ↦ none | c ∷ _ ↦ vlan_of c cs ]

-- A set of the classifiers of two flow points, of which each has one.
abbrev pub union_of : List Text → List Text → List Text
union_of (a ∷ []) (b ∷ []) = if text_eq a b then a ∷ [] else a ∷ b ∷ []
union_of cs ds = cs ++ ds

abbrev pub found_of : Text → FlowPoint → FlowPoint → Found
found_of fd f g = record {
  fd = fd;
  flow_points = f.name ∷ g.name ∷ [];
  classifiers = union_of f.classifiers g.classifiers;
}

abbrev pub ends_of : FlowPoint → ℕ → FlowPoint → ℕ → Ends
ends_of f v g w = record { src_port = f.port; src_vlan = v; dst_port = g.port; dst_vlan = w }

abbrev pub both_ways :
    Text
    → FlowPoint
    → Option ℕ
    → FlowPoint
    → Option ℕ
    → List (Ends × Found)
    → Option (List (Ends × Found))
both_ways fd f none g w t = none
both_ways fd f (some v) g none t = none
both_ways fd f (some v) g (some w) t =
    some ((ends_of g w f v, found_of fd f g) ∷ (ends_of f v g w, found_of fd f g) ∷ t)

-- Only a forwarding domain with two flow points is a circuit.
abbrev pub add_domain :
    List Classifier → Text → List FlowPoint → List (Ends × Found) → Option (List (Ends × Found))
add_domain cs fd (f ∷ g ∷ []) t = both_ways fd f (point_vlan cs f) g (point_vlan cs g) t
add_domain cs fd _ t = some t

unfoldable pub add_domains : Tables → List Text → List (Ends × Found) → Option (List (Ends × Found))
unfolding points_of
add_domains t [] found = some found
add_domains t (fd ∷ fds) found =
    elim (add_domain t.classifiers fd (points_of fd t.flow_points) found) [
      | none ↦ none
      | some more ↦ add_domains t fds more
    ]

abbrev pub lookup_or : Option (List (Ends × Found)) → Lookup
lookup_or none = key_error
lookup_or (some t) = lookup t

-- `_get_lookup`.
unfoldable pub get_lookup : Tables → Lookup
unfolding add_domains
get_lookup t =
    if any_not_one t.flow_points
    then nsi_exception
    else lookup_or (add_domains t t.forwarding_domains [])

abbrev pub same_ends : Ends → Ends → Bool
same_ends a b =
    text_eq a.src_port b.src_port
    && a.src_vlan == b.src_vlan
    && text_eq a.dst_port b.dst_port
    && a.dst_vlan == b.dst_vlan

unfoldable pub find_circuit : Ends → List (Ends × Found) → Option Found
find_circuit k [] = none
find_circuit k ((e, f) ∷ t) = if same_ends e k then some f else find_circuit k t

abbrev pub ends : Circuit → Ends
ends c = record {
  src_port = c.src_port_id;
  src_vlan = c.src_vlan;
  dst_port = c.dst_port_id;
  dst_vlan = c.dst_vlan;
}

abbrev pub each : (Text → Edit) → List Text → List Edit
each f [] = []
each f (t ∷ ts) = f t ∷ each f ts

-- The order in which a set is iterated over is that of the list that `iterate` makes of its elements.
abbrev pub terminate_edits : (List Text → List Text) → Found → List Edit
terminate_edits iterate f =
    each delete_flow_point (iterate f.flow_points)
    ++ delete_forwarding_domain f.fd ∷ each delete_classifier (iterate f.classifiers)

abbrev pub deactivate_edits : (List Text → List Text) → Found → List Edit
deactivate_edits iterate f = each disable_flow_point (iterate f.flow_points)

abbrev pub deactivate_found : Manager → (List Text → List Text) → Option Found → Ran (Unit {0})
deactivate_found m iterate none = refused
deactivate_found m iterate (some f) = apply_edits m (deactivate_edits iterate f)

abbrev pub deactivate_in : Manager → (List Text → List Text) → Ends → Lookup → Ran (Unit {0})
deactivate_in m iterate k (lookup t) = deactivate_found m iterate (find_circuit k t)
deactivate_in m iterate k e = refused

-- `deactivate`.
unfoldable pub deactivate : Manager → (List Text → List Text) → Tables → Circuit → Ran (Unit {0})
deactivate m iterate t c = deactivate_in m iterate (ends c) (get_lookup t)

-- Nothing is to be deleted.
abbrev pub no_op : Ran (Unit {0})
no_op = record { requests = []; result = some tt }

abbrev pub terminate_found : Manager → (List Text → List Text) → Option Found → Ran (Unit {0})
terminate_found m iterate none = no_op
terminate_found m iterate (some f) = apply_edits m (terminate_edits iterate f)

abbrev pub terminate_in : Manager → (List Text → List Text) → Ends → Lookup → Ran (Unit {0})
terminate_in m iterate k (lookup t) = terminate_found m iterate (find_circuit k t)
terminate_in m iterate k e = refused

-- `terminate`.
unfoldable pub terminate : Manager → (List Text → List Text) → Tables → Circuit → Ran (Unit {0})
terminate m iterate t c =
    if is_empty c.circuit_id then no_op else terminate_in m iterate (ends c) (get_lookup t)
