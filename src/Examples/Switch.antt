-- ===== src/Examples/Switch.antt =====
-- A Ciena 8190 switch on examples: a circuit between the ports 1 and 2 with the VLAN 101.
use su_pa.Base.Strings.{text_eq}
use su_pa.Base.{Text, codes, ◌≡◌, refl, true, false, List, [], ◌∷◌, none, some, ◌==◌, ◌⊎◌}
use su_pa.Util.Nsi.{split}
use su_pa.Util.Vlan.Parse.{int}
use su_pa.Nrm.Ciena.Ports.{OffersVlan, get_stp_id-OffersVlan}
use su_pa.Nrm.Ciena.{
  PortStp, get_ports, range_of, Manager, Circuit, PortRange, get_stp_id, activate,
}
use su_pa.Nrm.Ciena.Atomic.{Whole, Stopped}
use su_pa.Nrm.Ciena.Written.{creating, deleting}
use su_pa.Nrm.Ciena.Lookup.{Joins, activate_cases, terminate_deletes}
use su_pa.Nrm.Ciena.Tables.{
  FlowPoint, Tables, Found, points_of, add_domains, get_lookup, find_circuit, ends, terminate,
}

abbrev accepting : Manager
accepting = record { is_candidate = true; accepts = λ q. true }

abbrev offered : List PortRange
offered =
    record { port_id = codes "1"; start_vlan = 100; end_vlan = 101; stp_id = codes "p1" }
    ∷ record { port_id = codes "2"; start_vlan = 101; end_vlan = 103; stp_id = codes "p2" }
    ∷ []

abbrev circuit : Circuit
circuit = record {
  src_port_id = codes "1";
  src_vlan = 101;
  dst_port_id = codes "2";
  dst_vlan = 101;
  circuit_id = codes "c";
}

activate_cases_example :
    let src = get_stp_id (codes "1") 101 offered in
    let dst = get_stp_id (codes "2") 101 offered in
    ((s : Text) × (d : Text) × (src ≡ some s)
      × (dst ≡ some d)
      × (circuit.src_vlan ≡ circuit.dst_vlan)
      × (Whole accepting (creating accepting circuit s d) (activate accepting offered circuit)
          ⊎ Stopped accepting
              (creating accepting circuit s d)
              (activate accepting offered circuit)))
    ⊎ (((src ≡ none) ⊎ (dst ≡ none) ⊎ ((circuit.src_vlan == circuit.dst_vlan) ≡ false))
        × (activate accepting offered circuit ≡ record { requests = []; result = none }))
activate_cases_example = activate_cases accepting offered circuit

abbrev point : Text → Text → FlowPoint
point name port = record {
  name = name;
  admin_state = true;
  port = port;
  fd = codes "fd";
  classifiers = name ∷ [];
}

abbrev tables : Tables
tables = record {
  classifiers =
      record { name = codes "a"; vlan = 101 } ∷ record { name = codes "b"; vlan = 101 } ∷ [];
  forwarding_domains = codes "fd" ∷ [];
  flow_points = point (codes "a") (codes "1") ∷ point (codes "b") (codes "2") ∷ [];
}

abbrev on_switch : Found
on_switch = record {
  fd = codes "fd";
  flow_points = codes "a" ∷ codes "b" ∷ [];
  classifiers = codes "a" ∷ codes "b" ∷ [];
}

terminate_deletes_example :
    Joins tables (ends circuit) on_switch
    × (Whole accepting
          (deleting accepting (λ x. x) on_switch)
          (terminate accepting (λ x. x) tables circuit)
        ⊎ Stopped accepting
            (deleting accepting (λ x. x) on_switch)
            (terminate accepting (λ x. x) tables circuit))
unfolding get_lookup add_domains points_of find_circuit text_eq
terminate_deletes_example =
    terminate_deletes accepting (λ x. x) tables circuit
      ((ends (record circuit { src_port_id = codes "2"; dst_port_id = codes "1" }), on_switch)
        ∷ (ends circuit, on_switch)
        ∷ [])
      on_switch refl refl refl

abbrev stps : List PortStp
stps =
    record { stp_id = codes "p1"; port_id = codes "1"; vlans = codes "7,100-101" }
    ∷ record { stp_id = codes "p2"; port_id = codes "2"; vlans = codes "101-103" }
    ∷ []

abbrev parsed : List PortRange
parsed = record { port_id = codes "1"; start_vlan = 7; end_vlan = 7; stp_id = codes "p1" } ∷ offered

stps_parsed : get_ports stps ≡ some parsed
unfolding get_ports range_of split int text_eq
stps_parsed = refl

found_first : get_stp_id (codes "1") 101 parsed ≡ some (codes "p1")
unfolding get_stp_id text_eq
found_first = refl

get_stp_id-OffersVlan_example : OffersVlan stps (codes "1") 101 (codes "p1")
get_stp_id-OffersVlan_example =
    get_stp_id-OffersVlan stps parsed (codes "1") 101 (codes "p1") stps_parsed found_first
