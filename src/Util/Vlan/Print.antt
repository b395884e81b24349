-- ===== src/Util/Vlan/Print.antt =====
-- `VlanRanges.__str__` of src/supa/util/vlan.py.
pub mod Decimal
pub mod Parts
pub mod RoundTrip
use Prim.Native.Nat.{◌/◌, ◌%◌}
use su_pa.Base.{
  Text, ℕ, zero, suc, ◌+◌, ◌-◌, ◌≡◌, refl, List, [], ◌∷◌, ◌++◌, ltb, ◌==◌, if◌then◌else◌, codes,
}
use su_pa.Util.Functional.{Range}
use su_pa.Util.Vlan.{VlanRanges}

-- `str(n)`; each round writes the last digit, and `n + 1` rounds are enough.
unfoldable pub decimal_rounds : ℕ → ℕ → Text
decimal_rounds zero n = []
decimal_rounds (suc f) n =
    let front = decimal_rounds f (n / 10) in
    if ltb n 10 then (b'0' + n) ∷ [] else front ++ (b'0' + n % 10) ∷ []

unfoldable pub decimal : ℕ → Text
unfolding decimal_rounds
decimal n = decimal_rounds (suc n) n

-- `len(vr) == 1` of a range.
abbrev pub range_text : Range → Text
range_text r =
    if r.stop - r.start == 1
    then decimal r.start
    else decimal r.start ++ b'-' ∷ decimal (r.stop - 1)

-- `",".join(…)`.
unfoldable pub join : List Text → Text
join [] = []
join (s ∷ []) = s
join (s ∷ t ∷ ts) = s ++ b',' ∷ join (t ∷ ts)

abbrev pub range_texts : List Range → List Text
range_texts [] = []
range_texts (r ∷ rs) = range_text r ∷ range_texts rs

-- `VlanRanges.__str__`.
unfoldable pub to_string : VlanRanges → Text
unfolding decimal join
to_string v = join (range_texts v.vlan_ranges)

to_string_test :
    to_string (record {
      vlan_ranges =
          record { start = 1; stop = 11 }
          ∷ record { start = 15; stop = 16 }
          ∷ record { start = 4090; stop = 4097 }
          ∷ [];
    })
    ≡ codes "1-10,15,4090-4096"
unfolding to_string
to_string_test = refl
