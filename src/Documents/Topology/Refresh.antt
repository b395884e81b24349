-- ===== src/Documents/Topology/Refresh.antt =====
-- The table of STPs after a refresh, as a function of the STP's ID, and what the document then lists.
use su_pa.Base.{
  Text, text_eq_iff, ◌≡◌, refl, true, false, List, [], ◌∷◌, Option, none, some, All, if◌then◌else◌,
  ltb, ◌+◌, arith, Option-cases, inl, inr, ◌⊎◌,
}
use su_pa.Db.Model.{Topology}
use su_pa.Documents.Topology.{
  Stp, new_row, merge_stp, merge_stps, is_listed, disable_vanished, Settings, Refreshed, World,
  Fetched, stps, exception, refresh_topology, refresh_all, exposed,
}
use su_pa.Documents.Topology.Rows.{
  last_listed, find-merge_stp, find-merge_stps, find-disable_vanished,
}
use su_pa.Job.Reserve.Stp.{find_stp}

abbrev pub disabled : Option Topology → Option Topology
disabled none = none
disabled (some t) = some (record t { enabled = false })

-- The table as the NRM describes it: the last STP of our topology with the ID, or the former row,
-- disabled unless the ID is listed.
abbrev pub described : Text → List Stp → (Text → Option Topology) → Text → Option Topology
described ours ss f i = elim (last_listed ours i ss) [
  | some s ↦ some (new_row s)
  | none ↦ if is_listed i ss then f i else disabled (f i)
]

last_listed-is_listed :
    (ours i : Text) (ss : List Stp) (s : Stp)
    → last_listed ours i ss ≡ some s
    → (is_listed i ss ≡ true) × (s.stp_id ≡ i)
unfolding last_listed is_listed
last_listed-is_listed ours i [] s h = absurd (cc)
last_listed-is_listed ours i (u ∷ ss) s h =
    ground (arith, last_listed-is_listed ours i ss s, text_eq_iff u.stp_id i)

found-stp_id :
    (i : Text) (rows : List Topology) (t : Topology) → find_stp i rows ≡ some t → t.stp_id ≡ i
unfolding find_stp
found-stp_id i [] t h = absurd (cc)
found-stp_id i (u ∷ rows) t h = ground (arith, found-stp_id i rows t, text_eq_iff u.stp_id i)

find-merge-disable :
    (ours i : Text) (ss : List Stp) (rows : List Topology)
    → find_stp i (disable_vanished ss (merge_stps ours ss rows))
      ≡ described ours ss (λ k. find_stp k rows) i
find-merge-disable ours i ss rows =
    rw (find-disable_vanished i ss (merge_stps ours ss rows), find-merge_stps ours i ss rows)
      (elim (Option-cases (last_listed ours i ss)) [
        | inl e ↦ rw e (elim (Option-cases (find_stp i rows)) [
          | inl f ↦ rw f (ground arith)
          | inr (t, f) ↦ rw f (ground (arith, found-stp_id i rows t f))
        ])
        | inr (s, e) ↦ rw e (ground (arith, last_listed-is_listed ours i ss s e))
      ])

-- It is the turn of a refresh, the NRM answers with `ss` and the database session succeeds.
pub record Stores (c : Settings) (w : World) (r : Refreshed) (ss : List Stp) : Type 0 where
  pub automatic : c.manual_topology ≡ false
  pub free : r.locked ≡ false
  pub stale : ltb w.now (r.last_refresh + c.topology_freshness) ≡ false
  pub answered : w.nrm ≡ stps ss
  pub succeeds : w.session_fails ≡ false

exposed-disable_vanished :
    (ss : List Stp) (rows : List Topology)
    → All (λ t. is_listed t.stp_id ss ≡ true) (exposed (disable_vanished ss rows))
unfolding exposed disable_vanished
exposed-disable_vanished ss [] = tt
exposed-disable_vanished ss (t ∷ ts) = ground (arith, exposed-disable_vanished ss ts)

-- No STP ID has two rows.
abbrev pub HasUniqueIds : List Topology → Type 0
HasUniqueIds [] = Unit
HasUniqueIds (t ∷ ts) = (find_stp t.stp_id ts ≡ none) × HasUniqueIds ts

merge_stp-HasUniqueIds :
    (s : Stp) (rows : List Topology) → HasUniqueIds rows → HasUniqueIds (merge_stp s rows)
unfolding merge_stp find_stp
merge_stp-HasUniqueIds s [] h = (refl, tt)
merge_stp-HasUniqueIds s (t ∷ ts) h = ground (
  arith,
  merge_stp-HasUniqueIds s ts,
  find-merge_stp t.stp_id s ts,
  text_eq_iff t.stp_id s.stp_id,
  text_eq_iff s.stp_id t.stp_id,
)

merge_stps-HasUniqueIds :
    (ours : Text) (ss : List Stp) (rows : List Topology)
    → HasUniqueIds rows
    → HasUniqueIds (merge_stps ours ss rows)
unfolding merge_stps
merge_stps-HasUniqueIds ours [] rows h = h
merge_stps-HasUniqueIds ours (s ∷ ss) rows h = ground (
  arith,
  merge_stps-HasUniqueIds ours ss (merge_stp s rows),
  merge_stps-HasUniqueIds ours ss rows,
  merge_stp-HasUniqueIds s rows,
)

nrm-cases : (f : Fetched) → (f ≡ exception) ⊎ ((ss : List Stp) × (f ≡ stps ss))
nrm-cases exception = inl refl
nrm-cases (stps ss) = inr (ss, refl)

disable_vanished-HasUniqueIds :
    (ss : List Stp) (rows : List Topology)
    → HasUniqueIds rows
    → HasUniqueIds (disable_vanished ss rows)
unfolding disable_vanished
disable_vanished-HasUniqueIds ss [] h = tt
disable_vanished-HasUniqueIds ss (t ∷ ts) h =
    ground (arith, disable_vanished-HasUniqueIds ss ts, find-disable_vanished t.stp_id ss ts)

-- A refresh whose turn it is, when the NRM answers and the database session succeeds, leaves in the
-- table for every STP ID the last STP of our topology that the NRM lists with it; any other row
-- stays as it is if the NRM lists its ID in another topology, and is disabled if not. The topology
-- document then offers only STPs that the NRM lists. The lock is free again, and the time of the
-- refresh is kept.
pub refresh_topology-described :
    (c : Settings) (w : World) (r : Refreshed) (ss : List Stp)
    → Stores c w r ss
    → let r' = (refresh_topology c w r).state in
      ((i : Text) → find_stp i r'.rows ≡ described c.topology ss (λ k. find_stp k r.rows) i)
      × All (λ t. is_listed t.stp_id ss ≡ true) (exposed r'.rows)
      × (r'.last_refresh ≡ w.now)
      × (r'.locked ≡ false)
unfolding refresh_topology
refresh_topology-described c w r ss h =
    rw (h.automatic, h.free, h.stale, h.answered, h.succeeds)
      (
        λ i. find-merge-disable c.topology i ss r.rows,
        exposed-disable_vanished ss (merge_stps c.topology ss r.rows),
        refl,
        refl,
      )

refresh_topology-HasUniqueIds :
    (c : Settings) (w : World) (r : Refreshed)
    → HasUniqueIds r.rows
    → HasUniqueIds (refresh_topology c w r).state.rows
unfolding refresh_topology
refresh_topology-HasUniqueIds c w r h = elim (nrm-cases w.nrm) [
  | inl e ↦ rw e (ground arith)
  | inr (ss, e) ↦ rw e (
      ground (
        arith,
        merge_stps-HasUniqueIds c.topology ss r.rows h,
        disable_vanished-HasUniqueIds ss (merge_stps c.topology ss r.rows),
      ))
]

-- No STP ID gets a second row, whatever refreshes there are and however they end.
refresh_all-HasUniqueIds :
    (c : Settings) (ws : List World) (r : Refreshed)
    → HasUniqueIds r.rows
    → HasUniqueIds (refresh_all c ws r).rows
unfolding refresh_all
refresh_all-HasUniqueIds c [] r h = h
refresh_all-HasUniqueIds c (w ∷ ws) r h =
    refresh_all-HasUniqueIds c ws _ (refresh_topology-HasUniqueIds c w r h)
