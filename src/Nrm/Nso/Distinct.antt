-- ===== src/Nrm/Nso/Distinct.antt =====
-- No circuit gets the ID of another.
use mathlib.Core.List.{append_assoc}
use su_pa.Base.{
  Text, ℕ, zero, suc, ◌+◌, ◌<◌, ◌≤◌, ◌≡◌, refl, List, [], ◌∷◌, ◌++◌, Option, none, some, All, ◌==◌,
  arith, length, Bool-cases, inl, inr, ap, sym, ◌∙◌,
}
use su_pa.Job.Register.{larger, max_of, one_more}
use su_pa.Nrm.Nso.{
  last_of, circuit_number, circuit_numbers, get_next_circuit_id, provision_circuits,
}
use su_pa.Util.Nsi.{split}
use su_pa.Util.Nsi.RoundTrip.{Lacks, split_lacking}
use su_pa.Util.Vlan.Print.{decimal}
use su_pa.Util.Vlan.Print.Parts.{int-decimal, decimal-Lacks}

-- The last part after a separator, whatever stands before it.
split_two :
    (c : ℕ) (p d : Text)
    → Lacks c d
    → (a : Text) × (b : Text) × (s : List Text) × (split c (p ++ c ∷ d) ≡ a ∷ b ∷ s)
      × (last_of (b ∷ s) ≡ d)
unfolding split
split_two c [] d h = ([], d, [], rw (split_lacking c d h) (ground arith), refl)
split_two c (x ∷ p) d h =
    let (a, b, s, e, l) = split_two c p d h in
    elim (Bool-cases (x == c)) [
      | inl same ↦ ([], a, b ∷ s, rw (e, same) refl, l)
      | inr other ↦ (x ∷ a, b, s, rw (e, other) refl, l)
    ]

abbrev pub HasNumber : Text → Type 0
HasNumber i = (n : ℕ) × (circuit_number i ≡ some n)

printed_number : (p : Text) (n : ℕ) → circuit_number ((p ++ b'_' ∷ []) ++ decimal n) ≡ some n
unfolding circuit_number
printed_number p n =
    let (a, b, s, e, l) = split_two b'_' p (decimal n) (decimal-Lacks b'_' n refl) in
    rw (append_assoc p (b'_' ∷ []) (decimal n), e, l) (int-decimal n)

max_bounds :
    (n m : ℕ) (t : Option ℕ) → one_more (some (larger n t)) ≤ m → (n < m) × (one_more t ≤ m)
max_bounds n m none h = (omega (arith, h), omega (arith, h))
max_bounds n m (some k) h = (ground arith, ground arith)

-- The numbers of all IDs are below a number.
abbrev NumberBelow : ℕ → Text → Type 0
NumberBelow m i = (n : ℕ) × (circuit_number i ≡ some n) × (n < m)

numbers_below :
    (ids : List Text)
    → All HasNumber ids
    → (ns : List ℕ) × (circuit_numbers ids ≡ some ns)
      × ((m : ℕ) → one_more (max_of ns) ≤ m → All (NumberBelow m) ids)
numbers_below [] h = ([], refl, λ m l. tt)
numbers_below (i ∷ is) h =
    let (ns, e, below) = numbers_below is h.1 in
    (
      h.0.0 ∷ ns,
      rw (h.0.1, e) refl,
      λ m l.
          let bounds = max_bounds h.0.0 m (max_of ns) l in
          ((h.0.0, h.0.1, bounds.0), below m bounds.1),
    )

-- An ID with the number `m` is none of the IDs whose numbers are below.
not_below :
    (m : ℕ) (new : Text) (ids : List Text)
    → circuit_number new ≡ some m
    → All (NumberBelow m) ids
    → All (λ i. ¬ (i ≡ new)) ids
not_below m new [] e h = tt
not_below m new (i ∷ is) e h = (
  λ same.
      let equal : some h.0.0 ≡ some m = sym h.0.1 ∙ ap circuit_number same ∙ e in
      absurd (ground (arith, equal, h.0.2)),
  not_below m new is e h.1,
)

abbrev pub AreDistinct : List Text → Type 0
AreDistinct [] = Unit
AreDistinct (i ∷ is) = All (λ j. ¬ (j ≡ i)) is × AreDistinct is

module _ (p : Text) (start : ℕ) where
  next_is_new :
      (ids : List Text)
      → All HasNumber ids
      → (new : Text) × (get_next_circuit_id (p ++ b'_' ∷ []) start ids ≡ some new)
        × HasNumber new
        × All (λ i. ¬ (i ≡ new)) ids
  unfolding get_next_circuit_id
  next_is_new [] h = (_, refl, (start, printed_number p start), tt)
  next_is_new (i ∷ is) h =
      let (ns, e, below) = numbers_below (i ∷ is) h in
      let m = one_more (max_of ns) in
      let new = (p ++ b'_' ∷ []) ++ decimal m in
      let number = printed_number p m in
      (new, rw e refl, (m, number), not_below m new (i ∷ is) number (below m (omega arith)))

  -- With a prefix that ends in `_`, and stored IDs that are distinct and of which the part after the
  -- last `_` is a number, any number of provisions one after another succeed, and all IDs are
  -- distinct.
  pub provision_circuits-AreDistinct :
      (k : ℕ) (ids : List Text)
      → All HasNumber ids
      → AreDistinct ids
      → (ids' : List Text) × (provision_circuits (p ++ b'_' ∷ []) start k ids ≡ some ids')
        × AreDistinct ids'
        × (length ids' ≡ k + length ids)
  unfolding provision_circuits
  provision_circuits-AreDistinct zero ids h d = (ids, refl, d, omega arith)
  provision_circuits-AreDistinct (suc k) ids h d =
      let (new, e, number, fresh) = next_is_new ids h in
      let (ids', f, g, l) = provision_circuits-AreDistinct k (new ∷ ids) (number, h) (fresh, d) in
      (ids', ground (arith, e, f), g, omega (arith, l))
