-- ===== src/Util/Nsi.antt =====
-- src/supa/util/nsi.py: the parts of an STP identifier. A digit is an ASCII digit.
pub mod RoundTrip
use su_pa.Base.{
  last?, Text, codes, is_empty, text_eq, ℕ, zero, suc, ◌≡◌, refl, Bool, true, false, not, ◌&&◌,
  ◌||◌, List, [], ◌∷◌, ◌++◌, Option, none, some, leb, ◌==◌, if◌then◌else◌,
}

pub record Stp : Type 0 where
  pub domain : Text
  pub topology : Text
  pub stp_id : Text
  pub labels : Option Text

abbrev pub urn_prefix : Text
urn_prefix = codes "urn:ogf:network"

abbrev pub colon : ℕ
colon = b':'

abbrev pub question : ℕ
question = b'?'

-- `str.split` at one character.
abbrev pub cons_head : ℕ → List Text → List Text
cons_head c [] = (c ∷ []) ∷ []
cons_head c (p ∷ ps) = (c ∷ p) ∷ ps

unfoldable pub split : ℕ → Text → List Text
split c [] = [] ∷ []
split c (x ∷ xs) = let rest = split c xs in if x == c then [] ∷ rest else cons_head x rest

abbrev pub drop : ℕ → Text → Text
drop zero s = s
drop (suc n) [] = []
drop (suc n) (c ∷ s) = drop n s

abbrev pub is_digit : ℕ → Bool
is_digit c = leb b'0' c && leb c b'9'

abbrev pub all_digits : Text → Bool
all_digits [] = true
all_digits (c ∷ s) = is_digit c && all_digits s

-- `str.isdigit`.
abbrev pub isdigit : Text → Bool
isdigit s = not (is_empty s) && all_digits s

-- `all(parts)`.
abbrev pub all_present : List Text → Bool
all_present [] = true
all_present (p ∷ ps) = not (is_empty p) && all_present ps

-- `stp_id, *remainder`, and the last of the remainder.
abbrev pub with_labels : Text → Text → List Text → Option Stp
with_labels domain topology [] = none
with_labels domain topology (stp_id ∷ remainder) =
    some
      (record { domain = domain; topology = topology; stp_id = stp_id; labels = last? remainder })

-- The two shapes of an identifier; `none` is a ValueError.
parse_parts : List Text → Option Stp
parse_parts (a ∷ b ∷ c ∷ d ∷ []) =
    if isdigit b then with_labels (a ++ colon ∷ b) c (split question d) else none
parse_parts (a ∷ b ∷ c ∷ []) =
    if not (isdigit a || isdigit b || isdigit c) then with_labels a b (split question c) else none
parse_parts _ = none

abbrev pub if_present : List Text → Option Stp → Option Stp
if_present parts r = if all_present parts then r else none

-- `parse_stp`; what stands before the parts is not looked at.
unfoldable pub parse_stp : Text → Option Stp
unfolding parse_parts split
parse_stp stp = let parts = split colon (drop 16 stp) in if_present parts (parse_parts parts)

abbrev pub label_text : Option Text → Text
label_text none = []
label_text (some l) = if is_empty l then [] else question ∷ l

-- `Stp.__str__`.
unfoldable pub to_text : Stp → Text
to_text s =
    urn_prefix
    ++ colon ∷ (s.domain ++ colon ∷ (s.topology ++ colon ∷ (s.stp_id ++ label_text s.labels)))

parse_stp_test :
    parse_stp (codes "urn:ogf:network:example.domain:2013:topology:port1?vlan=5")
    ≡ some (record {
      domain = codes "example.domain:2013";
      topology = codes "topology";
      stp_id = codes "port1";
      labels = some (codes "vlan=5");
    })
unfolding parse_stp
parse_stp_test = refl
