-- ===== src/Job/Reserve/Stp/Select.antt =====
-- The VLANs that `_select_vlans` chooses.
use su_pa.Base.{
  ℕ, ◌≡◌, ◌≢◌, refl, sym, ap, ◌∙◌, true, ◌&&◌, List, arith, length, inl, inr, Bool-cases, ◌==◌,
  ==_iff,
}
use su_pa.Util.Functional.Sorted.{mem}
use su_pa.Job.Reserve.Stp.{ok, Choice, choose_shared, select_vlans}
use su_pa.Util.Vlan.{VlanRanges, elements, contains, len}
use su_pa.Util.Vlan.Canonical.{contains-elements}
use su_pa.Util.Vlan.Algebra.{InRange, and-Holds, len_zero_iff}

-- `random.choice` returns an element of a sequence that is not empty.
abbrev pub IsChoice : Choice → Type 0
IsChoice choice = (n : ℕ) (xs : List ℕ) → length xs ≢ 0 → mem (choice n xs) xs ≡ true

-- A VLAN for each end, the same one if the ends have one in common.
abbrev pub Selected : VlanRanges → VlanRanges → ℕ × ℕ → Type 0
Selected src dst p =
    (contains src p.0 ≡ true)
    × (contains dst p.1 ≡ true)
    × ((k : ℕ) → (contains src k && contains dst k) ≡ true → p.0 ≡ p.1)

chosen :
    (choice : Choice) (n : ℕ) (v : VlanRanges)
    → IsChoice choice
    → len v ≢ 0
    → contains v (choice n (elements v)) ≡ true
unfolding len
chosen choice n v law some_in = contains-elements v _ ∙ law n (elements v) some_in

choose_shared-Selected :
    (choice : Choice) (src dst w : VlanRanges)
    → IsChoice choice
    → len src ≢ 0
    → len dst ≢ 0
    → ((k : ℕ) → contains w k ≡ (contains src k && contains dst k))
    → Selected src dst (choose_shared choice src dst w)
choose_shared-Selected choice src dst w law s d holds = elim (Bool-cases (len w == 0)) [
  | inl none_shared ↦ rw none_shared (
    chosen choice 0 src law s,
    chosen choice 1 dst law d,
    λ k both. ground (arith, (len_zero_iff w).0 ((==_iff (len w) 0).0 none_shared) k, holds k),
  )
  | inr shared ↦ rw shared (
    ground (arith, chosen choice 0 w law (ground arith), holds (choice 0 (elements w))),
    ground (arith, chosen choice 0 w law (ground arith), holds (choice 0 (elements w))),
    λ k both. refl,
  )
]

-- Of two sets of VLANs that are not empty, the first within the range, a VLAN of each is
-- selected, and the same one if the sets share one, whatever element `random.choice` picks.
pub select_vlans-Selected :
    (choice : Choice) (src dst : VlanRanges)
    → IsChoice choice
    → InRange src
    → len src ≢ 0
    → len dst ≢ 0
    → (p : ℕ × ℕ) × (select_vlans choice src dst ≡ ok p) × Selected src dst p
unfolding select_vlans
select_vlans-Selected choice src dst law h s d =
    let (w, built, _, holds) = and-Holds src (elements dst) h in
    (
      choose_shared choice src dst w,
      rw built refl,
      choose_shared-Selected choice src dst w law s d
          (λ k. holds k ∙ ap (λ b. contains src k && b) (sym (contains-elements dst k))),
    )
