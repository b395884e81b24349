-- ===== src/Util/Vlan/Algebra.antt =====
-- The set operators of `VlanRanges`, src/supa/util/vlan.py, against the operations on sets.
use su_pa.Base.{
  ℕ, ◌≤◌, ◌≡◌, refl, sym, ap, ◌∙◌, Bool, true, false, ◌&&◌, ◌||◌, not, List, [], ◌∷◌, Option, some,
  arith, ◌↔◌, length,
}
use su_pa.Util.Functional.Sorted.{mem, mem-append}
use su_pa.Util.Vlan.{VlanRanges, init, contains, elements, keep, sub, and, or, xor, len}
use su_pa.Util.Vlan.Canonical.{contains-elements, mem-init, init_total, init_bounded}

pub mem-keep : (p : ℕ → Bool) (k : ℕ) (xs : List ℕ) → mem k (keep p xs) ≡ (mem k xs && p k)
unfolding mem
mem-keep p k [] = refl
mem-keep p k (x ∷ xs) = ground (arith, mem-keep p k xs)

-- Every VLAN that the object holds is within the range.
abbrev pub InRange : VlanRanges → Type 0
InRange v = (k : ℕ) → contains v k ≡ true → k ≤ 4096

pub init-InRange : (xs : List ℕ) (v : VlanRanges) → init xs ≡ some v → InRange v
init-InRange xs v h k c =
    init_bounded xs v k h (sym (mem-init xs v k h) ∙ sym (contains-elements v k) ∙ c)

-- The result of an operator that builds its object from the set `xs`.
abbrev pub Holds : Option VlanRanges → (ℕ → Bool) → Type 0
Holds r p = (w : VlanRanges) × (r ≡ some w) × InRange w × ((k : ℕ) → contains w k ≡ p k)

init-Holds :
    (xs : List ℕ) (p : ℕ → Bool)
    → ((k : ℕ) → mem k xs ≡ p k)
    → ((k : ℕ) → p k ≡ true → k ≤ 4096)
    → Holds (init xs) p
init-Holds xs p e h =
    let (w, built) = init_total xs (λ k m. h k (sym (e k) ∙ m)) in
    (w, built, init-InRange xs w built, λ k. contains-elements w k ∙ mem-init xs w k built ∙ e k)

-- For an object within the range, `v & other` does not fail, is within the range, and contains
-- exactly the VLANs that `v` contains and that are in `other`.
pub and-Holds :
    (v : VlanRanges) (other : List ℕ)
    → InRange v
    → Holds (and v other) (λ k. contains v k && mem k other)
unfolding and
and-Holds v other h =
    init-Holds _ _
      (λ k.
        mem-keep (λ j. mem j other) k (elements v)
        ∙ ap (λ b. b && mem k other) (sym (contains-elements v k)))
      (λ k. ground (arith, h k))

-- For an object within the range, `v - other` does not fail, is within the range, and contains
-- exactly the VLANs that `v` contains and that are not in `other`.
pub sub-Holds :
    (v : VlanRanges) (other : List ℕ)
    → InRange v
    → Holds (sub v other) (λ k. contains v k && not (mem k other))
unfolding sub
sub-Holds v other h =
    init-Holds _ _
      (λ k.
        mem-keep (λ j. not (mem j other)) k (elements v)
        ∙ ap (λ b. b && not (mem k other)) (sym (contains-elements v k)))
      (λ k. ground (arith, h k))

pub or-Holds :
    (v : VlanRanges) (other : List ℕ)
    → InRange v
    → ((k : ℕ) → mem k other ≡ true → k ≤ 4096)
    → Holds (or v other) (λ k. contains v k || mem k other)
unfolding or
or-Holds v other h g =
    init-Holds _ _
      (λ k.
        mem-append k (elements v) other ∙ ap (λ b. b || mem k other) (sym (contains-elements v k)))
      (λ k. ground (arith, h k, g k))

pub xor-Holds :
    (v : VlanRanges) (other : List ℕ)
    → InRange v
    → ((k : ℕ) → mem k other ≡ true → k ≤ 4096)
    → Holds
        (xor v other)
        (λ k. (contains v k && not (mem k other)) || (mem k other && not (contains v k)))
unfolding xor
xor-Holds v other h g =
    init-Holds _ _
      (λ k. ground (
        arith,
        mem-append k (keep (λ j. not (mem j other)) (elements v))
            (keep (λ j. not (mem j (elements v))) other),
        mem-keep (λ j. not (mem j other)) k (elements v),
        mem-keep (λ j. not (mem j (elements v))) k other,
        contains-elements v k,
      ))
      (λ k. ground (arith, h k, g k))

none_in : (k : ℕ) (xs : List ℕ) → length xs ≡ 0 → mem k xs ≡ false
unfolding mem
none_in k [] e = refl
none_in k (x ∷ xs) e = ground arith

no_elements : (xs : List ℕ) → ((k : ℕ) → mem k xs ≡ false) → length xs ≡ 0
unfolding mem
no_elements [] h = refl
no_elements (x ∷ xs) h = ground (arith, h x)

-- An object is empty, false in a condition, exactly when it contains no VLAN.
pub len_zero_iff : (v : VlanRanges) → (len v ≡ 0) ↔ ((k : ℕ) → contains v k ≡ false)
unfolding len
len_zero_iff v = (
  λ e k. contains-elements v k ∙ none_in k (elements v) e,
  λ h. no_elements (elements v) (λ k. sym (contains-elements v k) ∙ h k),
)
