-- ===== src/Job/Reserve/Resources/InUse.antt =====
-- The VLANs of the resources in use, against the reservations.
use su_pa.Base.{
  Text, text_eq, ℕ, zero, suc, ◌<◌, ◌≡◌, refl, ◌∙◌, true, ◌||◌, List, [], ◌∷◌, ◌++◌, Option, none,
  some, ◌⊎◌, inl, inr, Option-cases, arith,
}
use mathlib.Core.List.{Memᴰ}
use su_pa.Util.Functional.Sorted.{mem}
use su_pa.Db.Model.{Reservation, Schedule, P2PCriteria, p2p_criteria}
use su_pa.Job.Reserve.Resources.{
  Usage, sum_bandwidth, usage_of, copies, multiplicity, usage_rows, group_vlans, cons_vlan,
  StpResources, group_resources, stp_resources_in_use,
}
use su_pa.Util.Vlan.{init, contains}
use su_pa.Util.Vlan.Canonical.{contains-elements, mem-init}

mem-cons_vlan :
    (k : ℕ) (o : Option ℕ) (vs : List ℕ) → mem k vs ≡ true → mem k (cons_vlan o vs) ≡ true
unfolding mem
mem-cons_vlan k none vs h = h
mem-cons_vlan k (some v) vs h = ground arith

group_vlans-append :
    (k : ℕ) (us ws : List Usage)
    → mem k (group_vlans (us ++ ws)) ≡ (mem k (group_vlans us) || mem k (group_vlans ws))
unfolding group_vlans mem
group_vlans-append k [] ws = refl
group_vlans-append k (u ∷ us) ws = ground (arith, group_vlans-append k us ws)

-- The criteria use the VLAN at the STP.
abbrev pub Uses : Text → P2PCriteria → ℕ → Type 0
Uses stp c v =
    ((text_eq c.src.stp_id stp ≡ true) × (c.src.selected_vlan ≡ some v))
    ⊎ ((text_eq c.dst.stp_id stp ≡ true) × (c.dst.selected_vlan ≡ some v))

usage_of-Uses :
    (stp : Text) (c : P2PCriteria) (v : ℕ)
    → Uses stp c v
    → mem v (group_vlans (usage_of stp (some c))) ≡ true
unfolding mem group_vlans
usage_of-Uses stp c v h = ground arith

copied :
    (k n : ℕ) (us : List Usage)
    → 0 < n
    → mem k (group_vlans us) ≡ true
    → mem k (group_vlans (copies n us)) ≡ true
copied k zero us p h = absurd (omega arith)
copied k (suc n) us p h = ground (arith, group_vlans-append k us (copies n us))

used_row :
    (current : List Schedule) (stp : Text) (db : List Reservation) (other : Reservation)
    (c : P2PCriteria) (v : ℕ)
    → Memᴰ other db
    → 0 < multiplicity current other
    → p2p_criteria other ≡ some c
    → Uses stp c v
    → mem v (group_vlans (usage_rows current stp db)) ≡ true
unfolding usage_rows
used_row current stp [] other c v h m p u = elim h [ ]
used_row current stp (r ∷ rs) other c v (Memᴰ.head e) m p u =
    group_vlans-append v (copies (multiplicity current r) (usage_of stp (p2p_criteria r)))
      (usage_rows current stp rs)
    ∙ ground (arith, here)
  where
    here :
        mem v (group_vlans (copies (multiplicity current r) (usage_of stp (p2p_criteria r)))) ≡ true
    here =
        rw (← e, p)
          (copied v (multiplicity current other) (usage_of stp (some c)) m
            (usage_of-Uses stp c v u))
used_row current stp (r ∷ rs) other c v (Memᴰ.tail h) m p u =
    group_vlans-append v (copies (multiplicity current r) (usage_of stp (p2p_criteria r)))
      (usage_rows current stp rs)
    ∙ ground (arith, used_row current stp rs other c v h m p u)

-- The entry of an STP has rows, and the VLANs of the rows.
used_group :
    (us : List Usage) (v : ℕ) (entry : Option StpResources)
    → mem v (group_vlans us) ≡ true
    → group_resources us ≡ some entry
    → (s : StpResources) × (entry ≡ some s) × (contains s.vlans v ≡ true)
unfolding group_resources group_vlans mem
used_group [] v entry m h = ground arith
used_group (u ∷ us) v entry m h = elim (Option-cases (init (group_vlans (u ∷ us)))) [
  | inl n ↦ ground arith
  | inr (w, built) ↦ (
    record { bandwidth = sum_bandwidth (u ∷ us); vlans = w },
    ground arith,
    contains-elements w v ∙ mem-init (group_vlans (u ∷ us)) w v built ∙ m,
  )
]

-- `other` is active and its current schedule overlaps one of `r`.
abbrev pub Overlaps : Reservation → Reservation → Type 0
Overlaps r other = 0 < multiplicity r.schedules other

-- The VLANs that an active, overlapping reservation selected at an STP are in use there.
pub selected_is_used :
    (db : List Reservation) (r other : Reservation) (stp : Text) (c : P2PCriteria) (v : ℕ)
    (entry : Option StpResources)
    → Memᴰ other db
    → Overlaps r other
    → p2p_criteria other ≡ some c
    → Uses stp c v
    → stp_resources_in_use db r stp ≡ some entry
    → (s : StpResources) × (entry ≡ some s) × (contains s.vlans v ≡ true)
unfolding stp_resources_in_use
selected_is_used db r other stp c v entry h o p u e =
    used_group (usage_rows r.schedules stp db) v entry
      (used_row r.schedules stp db other c v h o p u) e
