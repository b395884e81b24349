-- ===== src/Util/Vlan/Print/Decimal.antt =====
-- A number is read back from its decimal digits.

use Prim.Native.Nat.{◌/◌, ◌%◌}
use su_pa.Base.{
  Text, ℕ, zero, suc, ◌+◌, ◌-◌, ◌*◌, ◌<◌, ◌≡◌, Bool, true, false, [], ◌∷◌, ◌++◌, some, All, ltb,
  arith, Bool-cases, inl, inr,
}
use su_pa.Util.Nsi.{is_digit}
use su_pa.Util.Vlan.Parse.{digits}
use su_pa.Util.Vlan.Print.{decimal_rounds}

abbrev pub AllDigits : Text → Type 0
AllDigits s = All (λ c. is_digit c ≡ true) s

AllDigits-append : (s : Text) (c : ℕ) → AllDigits s → is_digit c ≡ true → AllDigits (s ++ c ∷ [])
AllDigits-append [] c h d = (d, tt)
AllDigits-append (x ∷ s) c h d = (h.0, AllDigits-append s c h.1 d)

-- One more digit at the end.
digits-append :
    (m k c : ℕ) (sep : Bool) (s : Text)
    → AllDigits s
    → is_digit c ≡ true
    → digits m false s ≡ some k
    → digits m sep (s ++ c ∷ []) ≡ some (k * 10 + (c - b'0'))
unfolding digits
digits-append m k c sep [] h d e = ground arith
digits-append m k c sep (x ∷ s) h d e =
    ground (arith, digits-append (m * 10 + (x - b'0')) k c false s h.1 d)

pub decimal_rounds-digits :
    (f n : ℕ) (sep : Bool)
    → n < f
    → AllDigits (decimal_rounds f n) × (digits 0 sep (decimal_rounds f n) ≡ some n)
unfolding decimal_rounds digits
decimal_rounds-digits zero n sep h = absurd (omega arith)
decimal_rounds-digits (suc f) n sep h = elim (Bool-cases (ltb n 10)) [
  | inl small ↦ rw small ((ground arith, tt), ground arith)
  | inr large ↦
      let front = decimal_rounds-digits f (n / 10) false (ground arith) in
      let last : is_digit (b'0' + n % 10) ≡ true = ground arith in
      rw large (
        AllDigits-append (decimal_rounds f (n / 10)) (b'0' + n % 10) front.0 last,
        ground (
          arith,
          digits-append 0 (n / 10) (b'0' + n % 10) sep (decimal_rounds f (n / 10)) front.0 last,
        ),
      )
]
