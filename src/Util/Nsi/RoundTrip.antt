-- ===== src/Util/Nsi/RoundTrip.antt =====
-- Printing and parsing an STP, src/supa/util/nsi.py.
use mathlib.Core.List.{append_assoc, append-nil}
use su_pa.Base.{
  Text, is_empty, ℕ, ◌≡◌, refl, true, false, [], ◌∷◌, ◌++◌, Option, none, some, ◌==◌, arith, ◌⊎◌,
  inl, inr,
}
use su_pa.Util.Nsi.{
  Stp, split, colon, question, isdigit, parse_stp, parse_parts, to_text, with_labels, label_text,
}

-- The text does not hold the character.
abbrev pub Lacks : ℕ → Text → Type 0
Lacks c [] = Unit
Lacks c (x ∷ xs) = ((x == c) ≡ false) × Lacks c xs

pub split-append : (c : ℕ) (a rest : Text) → Lacks c a → split c (a ++ c ∷ rest) ≡ a ∷ split c rest
unfolding split
split-append c [] rest h = ground arith
split-append c (x ∷ a) rest h = ground (arith, split-append c a rest h.1)

pub split_lacking : (c : ℕ) (a : Text) → Lacks c a → split c a ≡ a ∷ []
unfolding split
split_lacking c [] h = refl
split_lacking c (x ∷ a) h = ground (arith, split_lacking c a h.1)

pub Lacks-append : (c : ℕ) (a b : Text) → Lacks c a → Lacks c b → Lacks c (a ++ b)
Lacks-append c [] b h k = k
Lacks-append c (x ∷ a) b h k = (h.0, Lacks-append c a b h.1 k)

-- A part of the identifier, between colons.
abbrev pub IsPart : Text → Type 0
IsPart t = (is_empty t ≡ false) × Lacks colon t

abbrev pub IsLabel : Option Text → Type 0
IsLabel none = Unit
IsLabel (some l) = (is_empty l ≡ false) × Lacks colon l × Lacks question l

-- The last part, with its labels.
abbrev pub local_part : Stp → Text
local_part s = s.stp_id ++ label_text s.labels

-- A domain of one part, where no part is a number, or one that ends in a number.
abbrev pub IsPlain : Stp → Type 0
IsPlain s =
    IsPart s.domain
    × (isdigit s.domain ≡ false)
    × (isdigit s.topology ≡ false)
    × (isdigit (local_part s) ≡ false)

abbrev pub IsDated : Stp → Type 0
IsDated s =
    (name : Text) × (year : Text) × (s.domain ≡ name ++ colon ∷ year)
    × IsPart name
    × IsPart year
    × (isdigit year ≡ true)

pub record IsStp (s : Stp) : Type 0 where
  pub topology_part : IsPart s.topology
  pub id_colon : Lacks colon s.stp_id
  pub id_question : Lacks question s.stp_id
  pub label : IsLabel s.labels
  pub present : is_empty (local_part s) ≡ false
  pub domain_form : IsPlain s ⊎ IsDated s

local-Lacks :
    (t : Text) (l : Option Text) → Lacks colon t → IsLabel l → Lacks colon (t ++ label_text l)
local-Lacks t none h k = Lacks-append colon t [] h tt
local-Lacks t (some []) h k = Lacks-append colon t [] h tt
local-Lacks t (some (c ∷ l)) h k = Lacks-append colon t (question ∷ c ∷ l) h (refl, k.1)

split_local :
    (domain topology t : Text) (l : Option Text)
    → Lacks question t
    → IsLabel l
    → with_labels domain topology (split question (t ++ label_text l))
      ≡ some (record { domain = domain; topology = topology; stp_id = t; labels = l })
split_local domain topology t none h k = rw (append-nil t, split_lacking question t h)
split_local domain topology t (some []) h k = cc
split_local domain topology t (some (c ∷ l)) h k =
    rw (split-append question t (c ∷ l) h, split_lacking question (c ∷ l) k.2)

split_tail :
    (s : Stp)
    → IsStp s
    → split colon (s.topology ++ colon ∷ local_part s) ≡ s.topology ∷ local_part s ∷ []
split_tail s h = rw (
  split-append colon s.topology (local_part s) h.topology_part.1,
  split_lacking colon (local_part s) (local-Lacks s.stp_id s.labels h.id_colon h.label),
)

-- The text of a well-formed STP parses, and gives the STP back.
pub parse_stp-to_text : (s : Stp) → IsStp s → parse_stp (to_text s) ≡ some s
unfolding parse_stp to_text parse_parts
parse_stp-to_text s h = elim h.domain_form [
  | inl (part, d, t, l) ↦ ground (
    arith,
    split-append colon s.domain (s.topology ++ colon ∷ local_part s) part.1,
    split_tail s h,
    h.topology_part,
    split_local s.domain s.topology s.stp_id s.labels h.id_question h.label,
  )
  | inr (name, year, e, n, y, d) ↦ ground (
    arith,
    append_assoc name (colon ∷ year) (colon ∷ (s.topology ++ colon ∷ local_part s)),
    split-append colon name (year ++ colon ∷ (s.topology ++ colon ∷ local_part s)) n.1,
    split-append colon year (s.topology ++ colon ∷ local_part s) y.1,
    split_tail s h,
    h.topology_part,
    split_local s.domain s.topology s.stp_id s.labels h.id_question h.label,
  )
]
