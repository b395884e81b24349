-- ===== src/Util/Vlan/Canonical.antt =====
-- What a `VlanRanges` object is: the canonical form of a set of VLANs.
use su_pa.Base.{
  ℕ, suc, ◌-◌, ◌≤◌, ◌≡◌, refl, sym, ap, ◌∙◌, true, List, [], ◌∷◌, some, arith, ==_iff, ◌↔◌,
}
use su_pa.Util.Functional.{Range, values, add, update, expand_from, expand_ranges, to_ranges}
use su_pa.Util.Functional.Sorted.{
  mem, From, IsSorted, mem-append, mem-count_up, mem-update, update-IsSorted, sorted_unique,
}
use su_pa.Util.Functional.Grouping.{iter, iter-to_ranges}
use su_pa.Util.Vlan.{
  VlanRanges, last_or, check_range, init_ranges, singletons, init, in_any, contains, elements,
}

in_any-iter : (k : ℕ) (rs : List Range) → in_any k rs ≡ mem k (iter rs)
unfolding mem iter
in_any-iter k [] = refl
in_any-iter k (r ∷ rs) = ground (
  arith,
  in_any-iter k rs,
  mem-append k (values r) (iter rs),
  mem-count_up k r.start (r.stop - r.start),
)

-- Membership by ranges is membership among the VLANs that the object yields.
pub contains-elements : (v : VlanRanges) (k : ℕ) → contains v k ≡ mem k (elements v)
unfolding contains elements
contains-elements v k = in_any-iter k v.vlan_ranges

expand_from-singletons : (xs s : List ℕ) → expand_from (singletons xs) true s ≡ some (update xs s)
unfolding expand_from update
expand_from-singletons [] s = refl
expand_from-singletons (x ∷ xs) s = expand_from-singletons xs (add x s)

-- What the constructor computes from a set of VLANs.
pub init-update : (xs : List ℕ) → init xs ≡ check_range (update xs [])
unfolding init init_ranges expand_ranges
init-update xs = rw (expand_from-singletons xs [])

pub elements_of_check : (er : List ℕ) (v : VlanRanges) → check_range er ≡ some v → elements v ≡ er
unfolding elements
elements_of_check er v h = ground (arith, iter-to_ranges er)

pub mem-init :
    (xs : List ℕ) (v : VlanRanges) (k : ℕ) → init xs ≡ some v → mem k (elements v) ≡ mem k xs
unfolding mem
mem-init xs v k h =
    ground (arith, init-update xs, elements_of_check (update xs []) v, mem-update k xs [])

-- The ranges are those of the elements, which are in order and without duplicates.
pub init_form :
    (xs : List ℕ) (v : VlanRanges)
    → init xs ≡ some v
    → IsSorted (elements v) × (v.vlan_ranges ≡ to_ranges (elements v))
init_form xs v h =
    ground (arith, init-update xs, elements_of_check (update xs []) v, update-IsSorted xs [] tt)

-- Two objects that the constructor made of any VLANs are equal exactly when they contain the same
-- VLANs.
pub init_canonical :
    (xs ys : List ℕ) (v w : VlanRanges)
    → init xs ≡ some v
    → init ys ≡ some w
    → (v ≡ w) ↔ ((k : ℕ) → contains v k ≡ contains w k)
init_canonical xs ys v w p q =
    let (sorted_v, form_v) = init_form xs v p in
    let (sorted_w, form_w) = init_form ys w q in
    (
      λ e k. ap (λ u. contains u k) e,
      λ same.
          let e : elements v ≡ elements w =
            sorted_unique 0 (elements v) (elements w) sorted_v sorted_w
              λ k. sym (contains-elements v k) ∙ same k ∙ contains-elements w k in
          ground (arith, ap to_ranges e),
    )

last_mem : (d x : ℕ) (xs : List ℕ) → mem (last_or d (x ∷ xs)) (x ∷ xs) ≡ true
unfolding mem
last_mem d x [] = ground arith
last_mem d x (y ∷ ys) = ground (arith, last_mem x y ys)

le-last : (lo d k : ℕ) (xs : List ℕ) → From lo xs → mem k xs ≡ true → k ≤ last_or d xs
unfolding mem
le-last lo d k [] f h = cc
le-last lo d k (x ∷ []) f h = ground arith
le-last lo d k (x ∷ y ∷ ys) f h =
    ground (
      arith,
      le-last (suc x) x k (y ∷ ys) f.1,
      le-last (suc x) x y (y ∷ ys) f.1,
      (==_iff y y).1 refl,
    )

-- The constructor accepts any VLANs that are at most 4096.
pub init_total :
    (xs : List ℕ) → ((k : ℕ) → mem k xs ≡ true → k ≤ 4096) → (v : VlanRanges) × (init xs ≡ some v)
unfolding mem
init_total xs h = (record { vlan_ranges = to_ranges (update xs []) }, within (update xs []) refl)
  where
    within :
        (er : List ℕ)
        → update xs [] ≡ er
        → init xs ≡ some (record { vlan_ranges = to_ranges (update xs []) })
    within [] e = ground (arith, init-update xs)
    within (x ∷ er) e = ground (
      arith,
      init-update xs,
      h (last_or 0 (x ∷ er)),
      mem-update (last_or 0 (x ∷ er)) xs [],
      ap (mem (last_or 0 (x ∷ er))) e,
      last_mem 0 x er,
    )

-- An accepted value has every VLAN within the range.
pub init_bounded :
    (xs : List ℕ) (v : VlanRanges) (k : ℕ) → init xs ≡ some v → mem k xs ≡ true → k ≤ 4096
unfolding mem
init_bounded xs v k h m = ground (
  arith,
  init-update xs,
  le-last 0 0 k (update xs []) (update-IsSorted xs [] tt),
  mem-update k xs [],
)
