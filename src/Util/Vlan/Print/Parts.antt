-- ===== src/Util/Vlan/Print/Parts.antt =====
-- The printed numbers and ranges are read back one by one.
use mathlib.Core.List.{reverse, reverse-append, reverse-reverse}
use su_pa.Base.{
  Text, ℕ, suc, ◌-◌, ◌≡◌, refl, ap, ◌∙◌, true, false, List, [], ◌∷◌, ◌++◌, some, All, ◌==◌,
  if◌then◌else◌, arith, Bool-cases, inl, inr,
}
use su_pa.Util.Functional.{Range}
use su_pa.Util.Nsi.{is_digit, split}
use su_pa.Util.Nsi.RoundTrip.{Lacks, split-append, split_lacking, Lacks-append}
use su_pa.Util.Vlan.Parse.{is_space, lstrip, strip, digits, unsigned, int, ints, parse_parts}
use su_pa.Util.Vlan.Print.{decimal, range_text, join, range_texts}
use su_pa.Util.Vlan.Print.Decimal.{AllDigits, decimal_rounds-digits}

abbrev pub NoSpace : Text → Type 0
NoSpace s = All (λ c. is_space c ≡ false) s

NoSpace-append : (s t : Text) → NoSpace s → NoSpace t → NoSpace (s ++ t)
NoSpace-append [] t h k = k
NoSpace-append (c ∷ s) t h k = (h.0, NoSpace-append s t h.1 k)

pub NoSpace-reverse : (s : Text) → NoSpace s → NoSpace (reverse s)
NoSpace-reverse [] h = tt
NoSpace-reverse (c ∷ s) h =
    rw (reverse-append (c ∷ []) s)
      (NoSpace-append (reverse s) (c ∷ []) (NoSpace-reverse s h.1) (h.0, tt))

pub lstrip_printed : (s : Text) → NoSpace s → lstrip s ≡ s
unfolding lstrip
lstrip_printed [] h = refl
lstrip_printed (c ∷ s) h = rw h.0 refl

strip_printed : (s : Text) → NoSpace s → strip s ≡ s
unfolding strip
strip_printed s h =
    rw (lstrip_printed s h, lstrip_printed (reverse s) (NoSpace-reverse s h)) (reverse-reverse s)

AllDigits-NoSpace : (s : Text) → AllDigits s → NoSpace s
AllDigits-NoSpace [] h = tt
AllDigits-NoSpace (c ∷ s) h = (ground arith, AllDigits-NoSpace s h.1)

AllDigits-Lacks : (d : ℕ) (s : Text) → is_digit d ≡ false → AllDigits s → Lacks d s
AllDigits-Lacks d [] k h = tt
AllDigits-Lacks d (c ∷ s) k h = (ground arith, AllDigits-Lacks d s k h.1)

decimal-AllDigits : (n : ℕ) → AllDigits (decimal n)
unfolding decimal
decimal-AllDigits n = (decimal_rounds-digits (suc n) n true (omega arith)).0

pub digits-decimal : (n : ℕ) → digits 0 true (decimal n) ≡ some n
unfolding decimal
digits-decimal n = (decimal_rounds-digits (suc n) n true (omega arith)).1

unsigned-digits : (s : Text) (n : ℕ) → AllDigits s → digits 0 true s ≡ some n → unsigned s ≡ some n
unfolding unsigned
unsigned-digits [] n h e = absurd (ground arith)
unsigned-digits (c ∷ s) n h e = ground arith

-- `int(str(n))`.
pub int-decimal : (n : ℕ) → int (decimal n) ≡ some n
unfolding int
int-decimal n =
    rw (strip_printed (decimal n) (AllDigits-NoSpace _ (decimal-AllDigits n)))
      (unsigned-digits (decimal n) n (decimal-AllDigits n) (digits-decimal n))

-- The numbers that the text of a range holds.
abbrev pub numbers : Range → List ℕ
numbers r = if r.stop - r.start == 1 then r.start ∷ [] else r.start ∷ (r.stop - 1) ∷ []

decimal-NoSpace : (n : ℕ) → NoSpace (decimal n)
decimal-NoSpace n = AllDigits-NoSpace (decimal n) (decimal-AllDigits n)

pub decimal-Lacks : (d n : ℕ) → is_digit d ≡ false → Lacks d (decimal n)
decimal-Lacks d n h = AllDigits-Lacks d (decimal n) h (decimal-AllDigits n)

range_text-NoSpace : (r : Range) → NoSpace (range_text r)
range_text-NoSpace r = elim (Bool-cases (r.stop - r.start == 1)) [
  | inl e ↦ rw e (decimal-NoSpace r.start)
  | inr e ↦ rw e (
      NoSpace-append (decimal r.start) (b'-' ∷ decimal (r.stop - 1)) (decimal-NoSpace r.start)
        (refl, decimal-NoSpace (r.stop - 1)))
]

range_text-Lacks : (r : Range) → Lacks b',' (range_text r)
range_text-Lacks r = elim (Bool-cases (r.stop - r.start == 1)) [
  | inl e ↦ rw e (decimal-Lacks b',' r.start refl)
  | inr e ↦ rw e (
      Lacks-append b',' (decimal r.start) (b'-' ∷ decimal (r.stop - 1))
        (decimal-Lacks b',' r.start refl) (refl, decimal-Lacks b',' (r.stop - 1) refl))
]

ints_one : (s : Text) (n : ℕ) → int s ≡ some n → ints (s ∷ []) ≡ some (n ∷ [])
unfolding ints
ints_one s n e = rw e refl

ints_two :
    (s t : Text) (n m : ℕ) → int s ≡ some n → int t ≡ some m → ints (s ∷ t ∷ []) ≡ some (n ∷ m ∷ [])
unfolding ints
ints_two s t n m e f = rw (e, f) refl

ints-split : (r : Range) → ints (split b'-' (range_text r)) ≡ some (numbers r)
ints-split r = elim (Bool-cases (r.stop - r.start == 1)) [
  | inl e ↦
      rw (e, split_lacking b'-' (decimal r.start) (decimal-Lacks b'-' r.start refl))
        (ints_one _ _ (int-decimal r.start))
  | inr e ↦
      rw
        (
          e,
          split-append b'-' (decimal r.start) (decimal (r.stop - 1))
              (decimal-Lacks b'-' r.start refl),
          split_lacking b'-' (decimal (r.stop - 1)) (decimal-Lacks b'-' (r.stop - 1) refl),
        )
        (ints_two _ _ _ _ (int-decimal r.start) (int-decimal (r.stop - 1)))
]

ints-range_text : (r : Range) → ints (split b'-' (strip (range_text r))) ≡ some (numbers r)
ints-range_text r = rw (strip_printed (range_text r) (range_text-NoSpace r)) (ints-split r)

abbrev pub all_numbers : List Range → List (List ℕ)
all_numbers [] = []
all_numbers (r ∷ rs) = numbers r ∷ all_numbers rs

parse_one :
    (s : Text) (ss : List Text) (n : List ℕ) (ns : List (List ℕ))
    → ints (split b'-' (strip s)) ≡ some n
    → parse_parts ss ≡ some ns
    → parse_parts (s ∷ ss) ≡ some (n ∷ ns)
unfolding parse_parts
parse_one s ss n ns e f = rw (e, f) refl

pub parse-range_texts : (rs : List Range) → parse_parts (range_texts rs) ≡ some (all_numbers rs)
unfolding parse_parts
parse-range_texts [] = refl
parse-range_texts (r ∷ rs) =
    parse_one (range_text r) (range_texts rs) _ _ (ints-range_text r) (parse-range_texts rs)

pub split-join :
    (r : Range) (rs : List Range) → split b',' (join (range_texts (r ∷ rs))) ≡ range_texts (r ∷ rs)
unfolding join
split-join r [] = split_lacking b',' (range_text r) (range_text-Lacks r)
split-join r (s ∷ rs) =
    split-append b',' (range_text r) (join (range_texts (s ∷ rs))) (range_text-Lacks r)
    ∙ ap (λ ts. range_text r ∷ ts) (split-join s rs)

pub join-NoSpace : (rs : List Range) → NoSpace (join (range_texts rs))
unfolding join
join-NoSpace [] = tt
join-NoSpace (r ∷ []) = range_text-NoSpace r
join-NoSpace (r ∷ s ∷ rs) =
    NoSpace-append (range_text r) (b',' ∷ join (range_texts (s ∷ rs))) (range_text-NoSpace r)
      (refl, join-NoSpace (s ∷ rs))
