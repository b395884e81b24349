-- ===== src/Util/Vlan/Print/RoundTrip.antt =====
-- Printing VLAN ranges and reading them again.
use mathlib.Core.List.{reverse, reverse-reverse}
use su_pa.Base.{
  Text, is_empty, ℕ, suc, ◌+◌, ◌-◌, ◌≤◌, ◌<◌, ◌≡◌, refl, ap, sym, ◌∙◌, true, false, List, [], ◌∷◌,
  ◌++◌, some, All, ◌==◌, arith, Bool-cases, inl, inr,
}
use su_pa.Util.Functional.{
  Range, values, add, update, expand_from, expand_ranges, to_ranges, group, enumerate,
}
use su_pa.Util.Functional.Sorted.{mem, From, IsSorted, mem-update, update-IsSorted, sorted_unique}
use su_pa.Util.Functional.Grouping.{iter}
use su_pa.Util.Nsi.{split}
use su_pa.Util.Vlan.{VlanRanges, check_range, init_ranges, init, elements}
use su_pa.Util.Vlan.Canonical.{init-update, elements_of_check, init_form}
use su_pa.Util.Vlan.Parse.{digits, parse_parts, init_text}
use su_pa.Util.Vlan.Print.{decimal, range_text, join, range_texts, to_string}
use su_pa.Util.Vlan.Print.Parts.{
  NoSpace, NoSpace-reverse, lstrip_printed, digits-decimal, numbers, all_numbers, parse-range_texts,
  split-join, join-NoSpace,
}

-- Every range holds a VLAN.
abbrev NonEmpty : List Range → Type 0
NonEmpty rs = All (λ r. r.start < r.stop) rs

update-append : (xs ys s : List ℕ) → update (xs ++ ys) s ≡ update ys (update xs s)
unfolding update
update-append [] ys s = refl
update-append (x ∷ xs) ys s = update-append xs ys (add x s)

expand-numbers :
    (r : Range) (rest : List (List ℕ)) (s : List ℕ)
    → r.start < r.stop
    → expand_from (numbers r ∷ rest) true s ≡ expand_from rest true (update (values r) s)
unfolding expand_from update
expand-numbers r rest s h = elim (Bool-cases (r.stop - r.start == 1)) [
  | inl e ↦ let one : r.stop - r.start ≡ 1 = ground arith in rw (e, one) refl
  | inr e ↦ let stop : r.stop - 1 + 1 ≡ r.stop = omega arith in rw (e, stop) refl
]

expand-all_numbers :
    (rs : List Range) (s : List ℕ)
    → NonEmpty rs
    → expand_from (all_numbers rs) true s ≡ some (update (iter rs) s)
unfolding expand_from update iter
expand-all_numbers [] s h = refl
expand-all_numbers (r ∷ rs) s h =
    expand-numbers r (all_numbers rs) s h.0
    ∙ expand-all_numbers rs (update (values r) s) h.1
    ∙ ap some (sym (update-append (values r) (iter rs) s))

-- The open group has its first entry before its last.
group-NonEmpty :
    (i x j y : ℕ) (zs : List ℕ)
    → x ≤ y
    → From (suc y) zs
    → NonEmpty (group (i, x) (j, y) (enumerate (suc j) zs))
unfolding group
group-NonEmpty i x j y [] h f = (omega arith, tt)
group-NonEmpty i x j y (z ∷ zs) h f =
    ground (arith, group-NonEmpty i x (suc j) z zs, group-NonEmpty (suc j) z (suc j) z zs)

to_ranges-NonEmpty : (xs : List ℕ) → IsSorted xs → NonEmpty (to_ranges xs)
unfolding to_ranges
to_ranges-NonEmpty [] h = tt
to_ranges-NonEmpty (x ∷ xs) h = group-NonEmpty 0 x 0 x xs (omega arith) h.1

not_empty : (s : Text) (n : ℕ) → digits 0 true s ≡ some n → is_empty s ≡ false
unfolding digits
not_empty [] n h = absurd (ground arith)
not_empty (c ∷ s) n h = refl

not_empty-append : (s t : Text) → is_empty s ≡ false → is_empty (s ++ t) ≡ false
not_empty-append [] t h = absurd (cc)
not_empty-append (c ∷ s) t h = refl

range_text_not_empty : (r : Range) → is_empty (range_text r) ≡ false
range_text_not_empty r = elim (Bool-cases (r.stop - r.start == 1)) [
  | inl e ↦ rw e start
  | inr e ↦ rw e (not_empty-append (decimal r.start) _ start)
]
  where
    start : is_empty (decimal r.start) ≡ false
    start = not_empty (decimal r.start) r.start (digits-decimal r.start)

join_not_empty : (r : Range) (rs : List Range) → is_empty (join (range_texts (r ∷ rs))) ≡ false
unfolding join
join_not_empty r [] = range_text_not_empty r
join_not_empty r (s ∷ rs) = not_empty-append (range_text r) _ (range_text_not_empty r)

init_text_parsed :
    (s : Text) (ns : List (List ℕ))
    → NoSpace s
    → is_empty s ≡ false
    → parse_parts (split b',' s) ≡ some ns
    → init_text s ≡ init_ranges ns
unfolding init_text
init_text_parsed s ns h k e =
    rw
      (
        lstrip_printed s h,
        lstrip_printed (reverse s) (NoSpace-reverse s h),
        reverse-reverse s,
        k,
        e,
      )
      refl

init_text-ranges :
    (rs : List Range) → init_text (join (range_texts rs)) ≡ init_ranges (all_numbers rs)
unfolding init_text join
init_text-ranges [] = refl
init_text-ranges (r ∷ rs) =
    init_text_parsed (join (range_texts (r ∷ rs))) (all_numbers (r ∷ rs)) (join-NoSpace (r ∷ rs))
      (join_not_empty r rs) (rw (split-join r rs) (parse-range_texts (r ∷ rs)))

update_sorted : (xs : List ℕ) → IsSorted xs → update xs [] ≡ xs
unfolding mem
update_sorted xs h =
    sorted_unique 0 (update xs []) xs (update-IsSorted xs [] tt) h
      λ k. ground (arith, mem-update k xs [])

module _ (xs : List ℕ) (v : VlanRanges) (made : init xs ≡ some v) where
  checked : check_range (update xs []) ≡ some v
  checked = sym (init-update xs) ∙ made

  elements-checked : check_range (elements v) ≡ some v
  elements-checked = rw (elements_of_check (update xs []) v checked) checked

  ranges-NonEmpty : NonEmpty v.vlan_ranges
  ranges-NonEmpty =
      let (sorted, form) = init_form xs v made in rw form (to_ranges-NonEmpty (elements v) sorted)

  init-all_numbers : init_ranges (all_numbers v.vlan_ranges) ≡ some v
  unfolding init_ranges expand_ranges elements
  init-all_numbers =
      rw
        (
          expand-all_numbers v.vlan_ranges [] ranges-NonEmpty,
          update_sorted (elements v) (init_form xs v made).0,
        )
        elements-checked

  -- A value that the constructor made of any VLANs is printed as a text from which the constructor
  -- makes the same value.
  pub init_text-to_string : init_text (to_string v) ≡ some v
  unfolding to_string
  init_text-to_string = init_text-ranges v.vlan_ranges ∙ init-all_numbers

-- The text of a single VLAN.
pub init_text-decimal : (v : ℕ) → init_text (decimal v) ≡ init (v ∷ [])
unfolding init join
init_text-decimal v =
    let one : (v + 1 - v == 1) ≡ true = ground arith in
    rw one at (init_text-ranges (record { start = v; stop = v + 1 } ∷ []))
