-- ===== src/Util/Functional.antt =====
-- src/supa/util/functional.py: expanding range definitions and grouping values into ranges.
pub mod Sorted
pub mod Grouping
use su_pa.Base.{
  ℕ, zero, suc, ◌+◌, ◌-◌, ◌≡◌, refl, Bool, true, false, List, [], ◌∷◌, map, Option, none, some, ltb,
  ◌==◌, if◌then◌else◌,
}

-- A Python `range`, with its exclusive stop.
pub record Range : Type 0 where
  pub start : ℕ
  pub stop : ℕ

-- `n` consecutive values from `a`.
abbrev pub count_up : ℕ → ℕ → List ℕ
count_up a zero = []
count_up a (suc n) = a ∷ count_up (suc a) n

-- The values of a range, in order.
abbrev pub values : Range → List ℕ
values r = count_up r.start (r.stop - r.start)

-- `set.add` on a set that is kept as its sorted list of elements.
unfoldable pub add : ℕ → List ℕ → List ℕ
add v [] = v ∷ []
add v (x ∷ xs) = if ltb v x then v ∷ x ∷ xs else if v == x then x ∷ xs else x ∷ add v xs

-- `set.update`.
unfoldable pub update : List ℕ → List ℕ → List ℕ
unfolding add
update [] s = s
update (v ∷ vs) s = update vs (add v s)

-- The loop of `expand_ranges`; `none` is its ValueError.
unfoldable pub expand_from : List (List ℕ) → Bool → List ℕ → Option (List ℕ)
unfolding update
expand_from [] inclusive s = some s
expand_from ((a ∷ []) ∷ rs) inclusive s = expand_from rs inclusive (add a s)
expand_from ((a ∷ b ∷ []) ∷ rs) inclusive s =
    expand_from rs inclusive
      (update (values (record { start = a; stop = b + (if inclusive then 1 else 0) })) s)
expand_from ([] ∷ rs) inclusive s = none
expand_from ((a ∷ b ∷ c ∷ r) ∷ rs) inclusive s = none

unfoldable pub expand_ranges : List (List ℕ) → Bool → Option (List ℕ)
unfolding expand_from
expand_ranges rs inclusive = expand_from rs inclusive []

abbrev pub enumerate : ℕ → List ℕ → List (ℕ × ℕ)
enumerate i [] = []
enumerate i (x ∷ xs) = (i, x) ∷ enumerate (suc i) xs

-- Whether the key of `groupby`, the value less its index, is the same for two entries.
abbrev pub same_key : ℕ × ℕ → ℕ × ℕ → Bool
same_key (i, x) (j, y) = x + j == y + i

-- `groupby` over the rest, with the first and the last entry of the group that is open.
unfoldable pub group : ℕ × ℕ → ℕ × ℕ → List (ℕ × ℕ) → List Range
group first last [] = record { start = first.1; stop = last.1 + 1 } ∷ []
group first last (t ∷ ts) = elim (same_key first t) [
  | true ↦ group first t ts
  | false ↦ record { start = first.1; stop = last.1 + 1 } ∷ group t t ts
]

unfoldable pub to_ranges_of : List (ℕ × ℕ) → List Range
unfolding group
to_ranges_of [] = []
to_ranges_of (t ∷ ts) = group t t ts

unfoldable pub to_ranges : List ℕ → List Range
unfolding to_ranges_of
to_ranges xs = to_ranges_of (enumerate 0 xs)

to_ranges_test :
    map values (to_ranges (2 ∷ 3 ∷ 4 ∷ 7 ∷ 9 ∷ 10 ∷ []))
    ≡ (2 ∷ 3 ∷ 4 ∷ []) ∷ (7 ∷ []) ∷ (9 ∷ 10 ∷ []) ∷ []
unfolding to_ranges
to_ranges_test = refl
