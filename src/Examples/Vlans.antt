-- ===== src/Examples/Vlans.antt =====
-- The library of VLANs and of STP identifiers on examples.
use su_pa.Base.{ℕ, ◌≡◌, refl, ◌↔◌, [], ◌∷◌}
use su_pa.Util.Functional.{to_ranges, expand_ranges}
use su_pa.Util.Vlan.{init, contains}
use su_pa.Util.Vlan.Algebra.{InRange, init-InRange}
use su_pa.Util.Vlan.Canonical.{init_canonical}
use su_pa.Examples.Data.{low_vlans, high_vlans}

pub low-InRange : InRange low_vlans
unfolding init expand_ranges to_ranges
low-InRange = init-InRange (100 ∷ 101 ∷ []) low_vlans refl

pub high-InRange : InRange high_vlans
unfolding init expand_ranges to_ranges
high-InRange = init-InRange (101 ∷ 102 ∷ 103 ∷ []) high_vlans refl

init_canonical_example :
    (low_vlans ≡ low_vlans) ↔ ((k : ℕ) → contains low_vlans k ≡ contains low_vlans k)
unfolding init expand_ranges to_ranges
init_canonical_example =
    init_canonical (101 ∷ 100 ∷ []) (100 ∷ 101 ∷ 100 ∷ []) low_vlans low_vlans refl refl
