-- ===== src/Util/Vlan/Parse.antt =====
-- `VlanRanges(val)` for a text, of src/supa/util/vlan.py, and `Stp.vlan_ranges` of
-- src/supa/util/nsi.py. White space and digits are those of ASCII.
use mathlib.Core.List.{reverse}
use su_pa.Base.{
  Text, codes, is_empty, ℕ, ◌+◌, ◌*◌, ◌-◌, ◌≡◌, refl, Bool, true, false, not, ◌&&◌, ◌||◌, List, [],
  ◌∷◌, Option, none, some, leb, ◌==◌, if◌then◌else◌, arith,
}
use su_pa.Util.Functional.{expand_ranges, to_ranges}
use su_pa.Util.Vlan.{VlanRanges, ◌>>=◌, init_ranges, empty}
use su_pa.Util.Nsi.{Stp, split, is_digit}

abbrev pub is_space : ℕ → Bool
is_space c = c == 32 || (leb 9 c && leb c 13) || (leb 28 c && leb c 31)

unfoldable pub lstrip : Text → Text
lstrip [] = []
lstrip (c ∷ s) = let rest = lstrip s in if is_space c then rest else c ∷ s

unfoldable pub strip : Text → Text
unfolding lstrip
strip s = reverse (lstrip (reverse (lstrip s)))

-- The digits of `int`: `sep` says that a digit has to come next. An underscore may stand between
-- two digits.
unfoldable pub digits : ℕ → Bool → Text → Option ℕ
digits n sep [] = if sep then none else some n
digits n sep (c ∷ s) =
    let more = digits (n * 10 + (c - b'0')) false s in
    let after = digits n true s in
    if is_digit c then more else if c == b'_' && not sep then after else none

unfoldable pub unsigned : Text → Option ℕ
unfolding digits
unsigned [] = none
unsigned (c ∷ s) = if c == b'+' then digits 0 true s else digits 0 true (c ∷ s)

-- `int`; `none` is a ValueError.
unfoldable pub int : Text → Option ℕ
unfolding unsigned strip
int s = unsigned (strip s)

-- `list(map(int, …))`.
unfoldable pub ints : List Text → Option (List ℕ)
unfolding int
ints [] = some []
ints (s ∷ ss) = do n ← int s; ns ← ints ss; some (n ∷ ns)

unfoldable pub parse_parts : List Text → Option (List (List ℕ))
unfolding ints strip split
parse_parts [] = some []
parse_parts (s ∷ ss) = do r ← ints (split b'-' (strip s)); rs ← parse_parts ss; some (r ∷ rs)

-- `VlanRanges(val)` for a text; `none` is a ValueError.
unfoldable pub init_text : Text → Option VlanRanges
unfolding parse_parts
init_text val =
    if is_empty (strip val)
    then init_ranges []
    else (do vlans ← parse_parts (split b',' val); init_ranges vlans)

-- What follows "vlan=", if the text starts so.
after_vlan : Text → Option Text
after_vlan (v ∷ l ∷ a ∷ n ∷ e ∷ s) =
    if v == b'v' && l == b'l' && a == b'a' && n == b'n' && e == b'=' then some s else none
after_vlan _ = none

labels_vlans : Option Text → Option VlanRanges
unfolding after_vlan
labels_vlans none = some empty
labels_vlans (some l) = elim (after_vlan l) [ none ↦ some empty | some s ↦ init_text s ]

-- `Stp.vlan_ranges`; `none` is a ValueError.
unfoldable pub vlan_ranges : Stp → Option VlanRanges
unfolding labels_vlans
vlan_ranges s = labels_vlans s.labels

init_text_test :
    init_text (codes " 4, 10-12 ,11 - 14") ≡ init_ranges ((10 ∷ 14 ∷ []) ∷ (4 ∷ 4 ∷ []) ∷ [])
unfolding init_text init_ranges expand_ranges to_ranges
init_text_test = refl

pub data HasBlank : List Text → Type 0 where
  here : {s : Text} {ss : List Text} → strip s ≡ [] → HasBlank (s ∷ ss)
  there : {s : Text} {ss : List Text} → HasBlank ss → HasBlank (s ∷ ss)

blank_refused : (ss : List Text) → HasBlank ss → parse_parts ss ≡ none
unfolding parse_parts
blank_refused [] h = elim h [ ]
blank_refused (s ∷ ss) (here e) = ground arith
blank_refused (s ∷ ss) (there h) = ground (arith, blank_refused ss h)

-- A text that is not blank as a whole, and that is blank between two commas or at an end, is
-- refused.
init_text_blank :
    (val : Text) → is_empty (strip val) ≡ false → HasBlank (split b',' val) → init_text val ≡ none
unfolding init_text
init_text_blank val h b = ground (arith, blank_refused (split b',' val) b)
