-- ===== src/Documents/Topology/Rows.antt =====
-- What merging and disabling do to the row of an STP.
use su_pa.Base.{
  Text, text_eq, text_eq_iff, ◌≡◌, refl, List, [], ◌∷◌, Option, none, some, if◌then◌else◌, arith,
}
use su_pa.Db.Model.{Topology}
use su_pa.Documents.Topology.{Stp, new_row, merge_stp, merge_stps, disable_row, disable_vanished}
use su_pa.Job.Reserve.Stp.{find_stp}

-- The last STP of our topology that the NRM lists with an ID.
unfoldable pub last_listed : Text → Text → List Stp → Option Stp
last_listed ours i [] = none
last_listed ours i (s ∷ ss) = elim (last_listed ours i ss) [
  | some found ↦ some found
  | none ↦ if text_eq s.topology ours then (if text_eq s.stp_id i then some s else none) else none
]

abbrev pub or_row : Option Stp → Option Topology → Option Topology
or_row (some s) t = some (new_row s)
or_row none t = t

pub find-merge_stp :
    (i : Text) (s : Stp) (rows : List Topology)
    → find_stp i (merge_stp s rows)
      ≡ (if text_eq s.stp_id i then some (new_row s) else find_stp i rows)
unfolding find_stp merge_stp
find-merge_stp i s [] = refl
find-merge_stp i s (t ∷ ts) = ground (
  arith,
  find-merge_stp i s ts,
  text_eq_iff t.stp_id s.stp_id,
  text_eq_iff s.stp_id i,
  text_eq_iff t.stp_id i,
)

pub find-merge_stps :
    (ours i : Text) (ss : List Stp) (rows : List Topology)
    → find_stp i (merge_stps ours ss rows) ≡ or_row (last_listed ours i ss) (find_stp i rows)
unfolding merge_stps last_listed
find-merge_stps ours i [] rows = refl
find-merge_stps ours i (s ∷ ss) rows = ground (
  arith,
  find-merge_stps ours i ss (merge_stp s rows),
  find-merge_stps ours i ss rows,
  find-merge_stp i s rows,
)

abbrev pub disable_found : List Stp → Option Topology → Option Topology
disable_found ss none = none
disable_found ss (some t) = some (disable_row ss t)

pub find-disable_vanished :
    (i : Text) (ss : List Stp) (rows : List Topology)
    → find_stp i (disable_vanished ss rows) ≡ disable_found ss (find_stp i rows)
unfolding find_stp disable_vanished
find-disable_vanished i ss [] = refl
find-disable_vanished i ss (t ∷ ts) = ground (arith, find-disable_vanished i ss ts)
