-- ===== src/Nrm/Nso.antt =====
-- src/supa/nrm/backends/nso.py: the IDs that the backend gives to circuits. Its requests to the NSO are
-- made by a client library and are left out.
pub mod Distinct
use su_pa.Base.{Text, ℕ, zero, suc, List, [], ◌∷◌, ◌++◌, Option, none, some}
use su_pa.Job.Register.{max_of, one_more}
use su_pa.Util.Nsi.{split}
use su_pa.Util.Vlan.Parse.{int}
use su_pa.Util.Vlan.Print.{decimal}

-- `id.split("_")[-1]`.
abbrev pub last_of : List Text → Text
last_of [] = []
last_of (t ∷ []) = t
last_of (t ∷ u ∷ us) = last_of (u ∷ us)

-- The number at the end of an ID; none is a ValueError.
unfoldable pub circuit_number : Text → Option ℕ
unfolding split int
circuit_number i = int (last_of (split b'_' i))

abbrev pub number_cons : Option ℕ → Option (List ℕ) → Option (List ℕ)
number_cons none ns = none
number_cons (some n) none = none
number_cons (some n) (some ns) = some (n ∷ ns)

abbrev pub circuit_numbers : List Text → Option (List ℕ)
circuit_numbers [] = some []
circuit_numbers (i ∷ is) = number_cons (circuit_number i) (circuit_numbers is)

-- The last ID after the sort has the largest number.
abbrev pub id_after : Text → Option (List ℕ) → Option Text
id_after prefix none = none
id_after prefix (some ns) = some (prefix ++ decimal (one_more (max_of ns)))

-- `_get_next_circuit_id`, for the circuit IDs of the stored connections that have one.
unfoldable pub get_next_circuit_id : Text → ℕ → List Text → Option Text
unfolding circuit_number decimal
get_next_circuit_id prefix start [] = some (prefix ++ decimal start)
get_next_circuit_id prefix start (i ∷ is) = id_after prefix (circuit_numbers (i ∷ is))

-- `provision` again and again, each time with the ID stored before the next.
unfoldable pub provision_circuits : Text → ℕ → ℕ → List Text → Option (List Text)
unfolding get_next_circuit_id
provision_circuits prefix start zero ids = some ids
provision_circuits prefix start (suc k) ids = elim (get_next_circuit_id prefix start ids) [
  | none ↦ none
  | some new ↦ provision_circuits prefix start k (new ∷ ids)
]
