-- ===== src/Util/Converter/Selected.antt =====
-- The STPs of an answer read back by the receiver.
use su_pa.Base.{Text, ℕ, ◌≡◌, refl, List, [], ◌∷◌, some, ◌∙◌}
use su_pa.Db.Model.{Endpoint, P2PCriteria}
use su_pa.Util.Converter.{selected_stp, to_p2p_service}
use su_pa.Util.Nsi.{parse_stp, to_text}
use su_pa.Util.Nsi.RoundTrip.{IsStp, parse_stp-to_text}
use su_pa.Util.Vlan.{init}
use su_pa.Util.Vlan.Parse.{vlan_ranges}
use su_pa.Util.Vlan.Print.RoundTrip.{init_text-decimal}

selected-vlan_ranges :
    (e : Endpoint) (v : ℕ) → e.selected_vlan ≡ some v → vlan_ranges (selected_stp e) ≡ init (v ∷ [])
unfolding vlan_ranges selected_stp
selected-vlan_ranges e v h = rw h (init_text-decimal v)

to_p2p_service_source :
    (c : P2PCriteria) (ps : List (Text × Text))
    → parse_stp (to_p2p_service c ps).source_stp ≡ parse_stp (to_text (selected_stp c.src))
unfolding to_p2p_service
to_p2p_service_source c ps = refl

to_p2p_service_dest :
    (c : P2PCriteria) (ps : List (Text × Text))
    → parse_stp (to_p2p_service c ps).dest_stp ≡ parse_stp (to_text (selected_stp c.dst))
unfolding to_p2p_service
to_p2p_service_dest c ps = refl

-- The STP that an answer names for an end with the selected VLAN `v`, where it has the form of an
-- identifier, is parsed by the receiver as that STP, and its labels as the single VLAN `v`.
pub selected_stp-reads :
    (c : P2PCriteria) (ps : List (Text × Text)) (v w : ℕ)
    → c.src.selected_vlan ≡ some v
    → c.dst.selected_vlan ≡ some w
    → IsStp (selected_stp c.src)
    → IsStp (selected_stp c.dst)
    → let s = to_p2p_service c ps in
      (parse_stp s.source_stp ≡ some (selected_stp c.src))
      × (vlan_ranges (selected_stp c.src) ≡ init (v ∷ []))
      × (parse_stp s.dest_stp ≡ some (selected_stp c.dst))
      × (vlan_ranges (selected_stp c.dst) ≡ init (w ∷ []))
selected_stp-reads c ps v w hv hw hs hd = (
  to_p2p_service_source c ps ∙ parse_stp-to_text (selected_stp c.src) hs,
  selected-vlan_ranges c.src v hv,
  to_p2p_service_dest c ps ∙ parse_stp-to_text (selected_stp c.dst) hd,
  selected-vlan_ranges c.dst w hw,
)
