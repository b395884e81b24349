-- ===== src/Nrm/Ciena/Ports.antt =====
-- The STP that the backend finds for a port and a VLAN.
use mathlib.Core.List.{Memᴰ}
use mathlib.Core.Path.{subst}
use su_pa.Base.{
  Text, text_eq, text_eq_iff, ℕ, ◌≤◌, ◌≡◌, refl, ◌&&◌, List, [], ◌∷◌, some, leb, All, arith,
  Bool-cases, Option-cases, inl, inr, ◌∙◌,
}
use su_pa.Nrm.Ciena.{
  PortStp, PortRange, same_range, set_range, range_of, add_ranges, ports_from, get_ports,
  get_stp_id,
}
use su_pa.Util.Nsi.{split}

-- The entry stands for a part of the VLANs of an STP on its port.
pub record IsOffered (stps : List PortStp) (e : PortRange) : Type 0 where
  pub stp : PortStp
  pub part : Text
  pub listed : Memᴰ stp stps
  pub part_listed : Memᴰ part (split b',' stp.vlans)
  pub range : range_of part ≡ some (e.start_vlan, e.end_vlan)
  pub port_same : stp.port_id ≡ e.port_id
  pub stp_same : stp.stp_id ≡ e.stp_id

module _ (stps : List PortStp) where
  set_range-All :
      (e : PortRange) (es : List PortRange)
      → IsOffered stps e
      → All (IsOffered stps) es
      → All (IsOffered stps) (set_range e es)
  set_range-All e [] o h = (o, tt)
  set_range-All e (x ∷ xs) o h = elim (Bool-cases (same_range x e)) [
    | inl same ↦ rw same (o, h.1)
    | inr other ↦ rw other (h.0, set_range-All e xs o h.1)
  ]

  add_ranges-All :
      (s : PortStp) (ts : List Text) (es es' : List PortRange)
      → Memᴰ s stps
      → ((t : Text) → Memᴰ t ts → Memᴰ t (split b',' s.vlans))
      → All (IsOffered stps) es
      → add_ranges s ts es ≡ some es'
      → All (IsOffered stps) es'
  add_ranges-All s [] es es' m parts h e =
      let same : es ≡ es' = ground arith in subst (λ x. All (IsOffered stps) x) same h
  add_ranges-All s (t ∷ ts) es es' m parts h e = elim (Option-cases (range_of t)) [
    | inl n ↦ absurd (ground arith)
    | inr (r, n) ↦
        let new : PortRange = record {
          port_id = s.port_id;
          start_vlan = r.0;
          end_vlan = r.1;
          stp_id = s.stp_id;
        } in
        let offered : IsOffered stps new = record {
          stp = s;
          part = t;
          listed = m;
          part_listed = parts t (Memᴰ.head refl);
          range = n;
          port_same = refl;
          stp_same = refl;
        } in
        add_ranges-All s ts (set_range new es) es' m (λ u k. parts u (Memᴰ.tail k))
          (set_range-All new es offered h) (ground arith)
  ]

  ports_from-All :
      (ss : List PortStp) (es es' : List PortRange)
      → ((s : PortStp) → Memᴰ s ss → Memᴰ s stps)
      → All (IsOffered stps) es
      → ports_from ss es ≡ some es'
      → All (IsOffered stps) es'
  ports_from-All [] es es' sub h e =
      let same : es ≡ es' = ground arith in subst (λ x. All (IsOffered stps) x) same h
  ports_from-All (s ∷ ss) es es' sub h e =
      elim (Option-cases (add_ranges s (split b',' s.vlans) es)) [
        | inl n ↦ absurd (ground arith)
        | inr (more, n) ↦
            ports_from-All ss more es' (λ u k. sub u (Memᴰ.tail k))
              (add_ranges-All s (split b',' s.vlans) es more (sub s (Memᴰ.head refl)) (λ t k. k) h
                n)
              (ground arith)
      ]

-- The STP has the port, and a part of the text of its VLANs is a range that contains the VLAN.
pub record OffersVlan (stps : List PortStp) (port : Text) (vlan : ℕ) (stp_id : Text) : Type 0 where
  pub stp : PortStp
  pub part : Text
  pub bounds : ℕ × ℕ
  pub listed : Memᴰ stp stps
  pub part_listed : Memᴰ part (split b',' stp.vlans)
  pub range : range_of part ≡ some bounds
  pub port_same : stp.port_id ≡ port
  pub stp_same : stp.stp_id ≡ stp_id
  pub above : bounds.0 ≤ vlan
  pub below : vlan ≤ bounds.1

find-OffersVlan :
    (stps : List PortStp) (port : Text) (vlan : ℕ) (es : List PortRange) (i : Text)
    → All (IsOffered stps) es
    → get_stp_id port vlan es ≡ some i
    → OffersVlan stps port vlan i
unfolding get_stp_id
find-OffersVlan stps port vlan [] i h e = absurd (cc)
find-OffersVlan stps port vlan (x ∷ xs) i h e =
    elim (Bool-cases (text_eq x.port_id port && leb x.start_vlan vlan && leb vlan x.end_vlan)) [
      | inl here ↦ record {
        stp = h.0.stp;
        part = h.0.part;
        bounds = (x.start_vlan, x.end_vlan);
        listed = h.0.listed;
        part_listed = h.0.part_listed;
        range = h.0.range;
        port_same = h.0.port_same ∙ (text_eq_iff x.port_id port).0 (ground arith);
        stp_same = h.0.stp_same ∙ (ground arith);
        above = ground arith;
        below = ground arith;
      }
      | inr not_here ↦ find-OffersVlan stps port vlan xs i h.1 (ground arith)
    ]

-- The STP that is found for a port and a VLAN is one of the topology, on this port, and one of the
-- parts of its VLANs is a range that contains the VLAN.
pub get_stp_id-OffersVlan :
    (stps : List PortStp) (ports : List PortRange) (port : Text) (vlan : ℕ) (i : Text)
    → get_ports stps ≡ some ports
    → get_stp_id port vlan ports ≡ some i
    → OffersVlan stps port vlan i
unfolding get_ports
get_stp_id-OffersVlan stps ports port vlan i made found =
    find-OffersVlan stps port vlan ports i (ports_from-All stps stps [] ports (λ s k. k) tt made)
      found
