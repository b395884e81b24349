-- ===== src/Nrm/Ciena/Written.antt =====
-- The requests to the switch that make and delete a circuit, written out, and that the edits of
-- src/supa/nrm/backends/ciena8190.py are these.
use su_pa.Base.{Text, codes, map, ◌++◌, ap, ◌∙◌, if◌then◌else◌, ◌≡◌, refl, List, [], ◌∷◌}
use su_pa.Util.Vlan.Print.{decimal}
use su_pa.Nrm.Ciena.{
  Manager, Circuit, Edit, Request, edit_config, validate, commit, create_classifier,
  create_forwarding_domain, create_flow_point, delete_classifier, delete_flow_point,
  delete_forwarding_domain,
}
use su_pa.Nrm.Ciena.Atomic.{edit_requests, all_requests}
use su_pa.Nrm.Ciena.Tables.{Found, each, terminate_edits}

-- The last requests of a change: its validation, and the commit of a candidate configuration.
abbrev pub finishing : Manager → List Request
finishing m = validate ∷ (if m.is_candidate then commit ∷ [] else [])

-- The requests that make the circuit `c` between the STPs `s` and `d`.
abbrev pub creating : Manager → Circuit → Text → Text → List Request
creating m c s d =
    let v = decimal c.src_vlan in
    let w = decimal c.dst_vlan in
    let src = codes "opennsa-" ++ (s ++ b'-' ∷ v) in
    let dst = codes "opennsa-" ++ (d ++ b'-' ∷ w) in
    let fd = codes "opennsa-" ++ (s ++ b'-' ∷ (d ++ b'-' ∷ (v ++ b'-' ∷ w))) in
    edit_config (create_classifier src c.src_vlan)
    ∷ edit_config (create_classifier dst c.dst_vlan)
    ∷ edit_config (create_forwarding_domain fd fd)
    ∷ edit_config (create_flow_point src fd c.src_port_id src src)
    ∷ edit_config (create_flow_point dst fd c.dst_port_id dst dst)
    ∷ finishing m

-- The requests that delete the circuit `f`.
abbrev pub deleting : Manager → (List Text → List Text) → Found → List Request
deleting m iterate f =
    map (λ n. edit_config (delete_flow_point n)) (iterate f.flow_points)
    ++ edit_config (delete_forwarding_domain f.fd)
      ∷ (map (λ n. edit_config (delete_classifier n)) (iterate f.classifiers) ++ finishing m)

each-edit_requests :
    (g : Text → Edit) (ts : List Text) (es : List Edit) (after : List Request)
    → edit_requests (each g ts ++ es) after
      ≡ map (λ n. edit_config (g n)) ts ++ edit_requests es after
each-edit_requests g [] es after = refl
each-edit_requests g (t ∷ ts) es after =
    ap (λ qs. edit_config (g t) ∷ qs) (each-edit_requests g ts es after)

each-all_requests :
    (g : Text → Edit) (ts : List Text) (after : List Request)
    → edit_requests (each g ts) after ≡ map (λ n. edit_config (g n)) ts ++ after
each-all_requests g [] after = refl
each-all_requests g (t ∷ ts) after =
    ap (λ qs. edit_config (g t) ∷ qs) (each-all_requests g ts after)

pub deleting-all_requests :
    (m : Manager) (iterate : List Text → List Text) (f : Found)
    → all_requests m (terminate_edits iterate f) ≡ deleting m iterate f
deleting-all_requests m iterate f =
    each-edit_requests delete_flow_point (iterate f.flow_points)
      (delete_forwarding_domain f.fd ∷ each delete_classifier (iterate f.classifiers)) (finishing m)
    ∙ ap
        (λ qs.
          map (λ n. edit_config (delete_flow_point n)) (iterate f.flow_points)
          ++ edit_config (delete_forwarding_domain f.fd) ∷ qs)
        (each-all_requests delete_classifier (iterate f.classifiers) (finishing m))
