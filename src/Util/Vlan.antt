-- ===== src/Util/Vlan.antt =====
-- src/supa/util/vlan.py: the class `VlanRanges`, a set of VLANs kept as canonical ranges.
-- A Python set is kept as a list of its elements, in any order. VLANs are natural numbers, so the
-- lower bound of the range test, `er[0] >= 0`, always holds.
pub mod Canonical
pub mod Algebra
pub mod Parse
pub mod Print
use su_pa.Base.{
  ℕ, suc, ◌+◌, ◌-◌, ◌≡◌, refl, Bool, true, false, not, ◌&&◌, ◌||◌, List, [], ◌∷◌, ◌++◌, map, Option,
  none, some, ltb, leb, ◌==◌, if◌then◌else◌, length,
}
use su_pa.Util.Functional.{Range, values, expand_ranges, to_ranges}
use su_pa.Util.Functional.Grouping.{iter}
use su_pa.Util.Functional.Sorted.{mem}

pub record VlanRanges : Type 0 where
  pub vlan_ranges : List Range

infixl 5 ◌>>=◌
abbrev pub ◌>>=◌ {ℓ κ} : {A : Type ℓ} {B : Type κ} → Option A → (A → Option B) → Option B
none >>= f = none
some a >>= f = f a

abbrev pub last_or : ℕ → List ℕ → ℕ
last_or d [] = d
last_or d (x ∷ xs) = last_or x xs

-- `er and not (er[0] >= 0 and er[-1] <= 4096)`.
abbrev pub is_out_of_range : List ℕ → Bool
is_out_of_range er = ltb 4096 (last_or 0 er)

abbrev pub check_range : List ℕ → Option VlanRanges
check_range er = if is_out_of_range er then none else some (record { vlan_ranges = to_ranges er })

-- `VlanRanges(val)` for a sequence of sequences; `none` is a ValueError.
unfoldable pub init_ranges : List (List ℕ) → Option VlanRanges
init_ranges vlans = do er ← expand_ranges vlans true; check_range er

abbrev pub singletons : List ℕ → List (List ℕ)
singletons [] = []
singletons (x ∷ xs) = (x ∷ []) ∷ singletons xs

-- `VlanRanges(val)` for a set or another iterable of VLANs.
unfoldable pub init : List ℕ → Option VlanRanges
unfolding init_ranges
init val = init_ranges (singletons val)

-- `VlanRanges()`.
unfoldable pub empty : VlanRanges
empty = record { vlan_ranges = [] }

unfoldable pub to_list_of_tuples : VlanRanges → List (ℕ × ℕ)
to_list_of_tuples v = map (λ vr. (vr.start, vr.stop - 1)) v.vlan_ranges

abbrev pub in_any : ℕ → List Range → Bool
in_any key [] = false
in_any key (r ∷ rs) = (leb r.start key && ltb key r.stop) || in_any key rs

-- `key in self`.
unfoldable pub contains : VlanRanges → ℕ → Bool
contains v key = in_any key v.vlan_ranges

-- `set(self)`, and what `iter(self)` yields.
unfoldable pub elements : VlanRanges → List ℕ
unfolding iter
elements v = iter v.vlan_ranges

-- `len(self)`; `bool(self)` is whether it is not 0.
unfoldable pub len : VlanRanges → ℕ
unfolding elements
len v = length (elements v)

abbrev pub equal_ranges : List Range → List Range → Bool
equal_ranges [] [] = true
equal_ranges [] (s ∷ ss) = false
equal_ranges (r ∷ rs) [] = false
equal_ranges (r ∷ rs) (s ∷ ss) = (r.start == s.start && r.stop == s.stop) && equal_ranges rs ss

-- `self == o`. Python's ranges are equal when their values are; the ranges that a constructor
-- keeps are not empty, and of those it is so when their ends agree.
unfoldable pub equal : VlanRanges → VlanRanges → Bool
equal v o = equal_ranges v.vlan_ranges o.vlan_ranges

-- The elements that a set keeps, by a test.
abbrev pub keep : (ℕ → Bool) → List ℕ → List ℕ
keep p [] = []
keep p (x ∷ xs) = let rest = keep p xs in if p x then x ∷ rest else rest

-- `self - other` for a VLAN; `none` also stands for the KeyError of `set.remove`.
unfoldable pub sub_vlan : VlanRanges → ℕ → Option VlanRanges
unfolding mem
sub_vlan v other =
    if mem other (elements v) then init (keep (λ k. not (k == other)) (elements v)) else none

-- `self - other`, `self & other`, `self | other` and `self ^ other` for sets.
unfoldable pub sub : VlanRanges → List ℕ → Option VlanRanges
unfolding mem
sub v other = init (keep (λ k. not (mem k other)) (elements v))

unfoldable pub and : VlanRanges → List ℕ → Option VlanRanges
unfolding mem
and v other = init (keep (λ k. mem k other) (elements v))

unfoldable pub or : VlanRanges → List ℕ → Option VlanRanges
or v other = init (elements v ++ other)

unfoldable pub xor : VlanRanges → List ℕ → Option VlanRanges
unfolding mem
xor v other =
    init (keep (λ k. not (mem k other)) (elements v) ++ keep (λ k. not (mem k (elements v))) other)

abbrev pub any_in : List ℕ → List ℕ → Bool
unfolding mem
any_in [] s = false
any_in (x ∷ xs) s = mem x s || any_in xs s

unfoldable pub isdisjoint : VlanRanges → List ℕ → Bool
isdisjoint v other = not (any_in other (elements v))

-- `reduce(operator.__or__, others, self)`.
unfoldable pub union : VlanRanges → List (List ℕ) → Option VlanRanges
unfolding or
union v [] = some v
union v (o ∷ os) = do w ← or v o; union w os

init_test :
    init_ranges ((4 ∷ []) ∷ (10 ∷ 12 ∷ []) ∷ (11 ∷ 14 ∷ []) ∷ [])
    ≡ init_ranges ((10 ∷ 14 ∷ []) ∷ (4 ∷ 4 ∷ []) ∷ [])
unfolding init_ranges expand_ranges to_ranges
init_test = refl
