-- ===== src/Command/Refines.antt =====
-- The commands on the table as changes to a map from STP IDs to rows.
use mathlib.Core.Path.{fun_ext, subst}
use su_pa.Base.{
  zero, suc, ℕ, Text, text_eq, text_eq_iff, ◌≡◌, refl, true, false, List, [], ◌∷◌, Option, none,
  some, if◌then◌else◌, arith, Option-cases, inl, inr, sym, ap, ◌∙◌,
}
use su_pa.Command.{
  TopologyRow, find_row, ModifyOptions, AddOptions, StpCommand, add, modify, delete, enable,
  disable, added_row, modified_row, given, given_optional, given_bandwidth, change_row, Echo,
  nothing, has_been, on_found, run_command, run_commands,
}
use su_pa.Util.Vlan.{VlanRanges}
use su_pa.Util.Vlan.Parse.{init_text}
use su_pa.Util.Vlan.Print.{to_string}
use su_pa.Command.Rows.{
  HasUniqueIds, over, find-append, find-change_row, find-delete_row, change_row-HasUniqueIds,
  delete_row-HasUniqueIds, append-HasUniqueIds,
}

abbrev pub Table : Type 0
Table = Text → Option TopologyRow

abbrev pub update : Text → (Option TopologyRow → Option TopologyRow) → Table → Table
update k f m i = if text_eq k i then f (m i) else m i

-- A text that is given and not empty, and a number that is given and not zero.
abbrev pub non_empty : Option Text → Option Text
non_empty (some (c ∷ cs)) = some (c ∷ cs)
non_empty _ = none

abbrev pub positive : Option ℕ → Option ℕ
positive (some (suc n)) = some (suc n)
positive _ = none

abbrev pub get_or : {A : Type 0} → A → Option A → A
get_or old none = old
get_or old (some new) = new

abbrev pub first_of : {A : Type 0} → Option A → Option A → Option A
first_of (some a) b = some a
first_of none b = b

-- The row after `modify`: every option that is given stands in its own column, as it is given, and
-- the other columns, the ID and whether the STP is enabled among them, are as they were.
abbrev pub overwritten : ModifyOptions → TopologyRow → TopologyRow
overwritten o t = record {
  stp_id = t.stp_id;
  port_id = get_or t.port_id (non_empty o.port_id);
  vlans = get_or t.vlans (non_empty o.vlans);
  bandwidth = get_or t.bandwidth (positive o.bandwidth);
  description = first_of (non_empty o.description) t.description;
  is_alias_in = first_of (non_empty o.is_alias_in) t.is_alias_in;
  is_alias_out = first_of (non_empty o.is_alias_out) t.is_alias_out;
  enabled = t.enabled;
}

abbrev pub or_added : AddOptions → Option VlanRanges → Option TopologyRow → Option TopologyRow
or_added o none m = m
or_added o (some v) none = some (record {
  stp_id = o.stp_id;
  port_id = o.port_id;
  vlans = to_string v;
  bandwidth = o.bandwidth;
  description = o.description;
  is_alias_in = o.is_alias_in;
  is_alias_out = o.is_alias_out;
  enabled = o.enabled;
})
or_added o (some v) (some t) = some t

-- The command on the map.
abbrev pub replay : StpCommand → Table → Table
replay (add o) = update o.stp_id (or_added o (init_text o.vlans))
replay (modify o) = update o.stp_id (over (overwritten o))
replay (delete k) = update k (λ _. none)
replay (enable k) = update k (over (λ t. record t { enabled = true }))
replay (disable k) = update k (over (λ t. record t { enabled = false }))

abbrev pub replay_all : List StpCommand → Table → Table
replay_all [] m = m
replay_all (c ∷ cs) m = replay_all cs (replay c m)

given-get_or : (t : Option Text) (old : Text) → given t old ≡ get_or old (non_empty t)
given-get_or none old = refl
given-get_or (some []) old = refl
given-get_or (some (c ∷ cs)) old = refl

given_optional-first_of : (t old : Option Text) → given_optional t old ≡ first_of (non_empty t) old
given_optional-first_of none old = refl
given_optional-first_of (some []) old = refl
given_optional-first_of (some (c ∷ cs)) old = refl

given_bandwidth-get_or : (b : Option ℕ) (old : ℕ) → given_bandwidth b old ≡ get_or old (positive b)
given_bandwidth-get_or none old = refl
given_bandwidth-get_or (some zero) old = refl
given_bandwidth-get_or (some (suc n)) old = ground arith

modified_row-overwritten :
    (o : ModifyOptions) (t : TopologyRow) → modified_row o t ≡ overwritten o t
modified_row-overwritten o t =
    rw
      (
        given-get_or o.port_id t.port_id,
        given-get_or o.vlans t.vlans,
        given_optional-first_of o.description t.description,
        given_optional-first_of o.is_alias_in t.is_alias_in,
        given_optional-first_of o.is_alias_out t.is_alias_out,
        given_bandwidth-get_or o.bandwidth t.bandwidth,
      )
      refl

abbrev RefinesAt : StpCommand → List TopologyRow → Type 0
RefinesAt c rows =
    HasUniqueIds (run_command c rows).rows
    × ((i : Text) → find_row i (run_command c rows).rows ≡ replay c (λ k. find_row k rows) i)

same_row :
    (k i : Text) (rows : List TopologyRow) → text_eq k i ≡ true → find_row i rows ≡ find_row k rows
same_row k i rows e = ap (λ j. find_row j rows) (sym ((text_eq_iff k i).0 e))

add-refines :
    (o : AddOptions) (rows : List TopologyRow) → HasUniqueIds rows → RefinesAt (add o) rows
unfolding run_command
add-refines o rows h = elim (Option-cases (init_text o.vlans)) [
  | inl e ↦ rw e (h, λ i. ground arith)
  | inr (v, e) ↦ elim (Option-cases (find_row o.stp_id rows)) [
    | inl n ↦
        rw (e, n)
          (
            append-HasUniqueIds rows (added_row o v) h n,
            λ i. ground (arith, find-append i rows (added_row o v), same_row o.stp_id i rows),
          )
    | inr (t, f) ↦ rw (e, f) (h, λ i. ground (arith, same_row o.stp_id i rows))
  ]
]

-- The commands that change the found row.
module _ (k : Text) (f : TopologyRow → TopologyRow)
    (keeps : (t : TopologyRow) → (f t).stp_id ≡ t.stp_id) (rows : List TopologyRow) (e : Echo) where
  found-refines :
      HasUniqueIds rows
      → let rows' =
          (on_found
            (find_row k rows)
            rows
            (record { rows = change_row k f rows; echo = e })).rows in
        HasUniqueIds rows'
        × ((i : Text) → find_row i rows' ≡ update k (over f) (λ j. find_row j rows) i)
  found-refines h = elim (Option-cases (find_row k rows)) [
    | inl n ↦ rw n (h, λ i. ground (arith, same_row k i rows))
    | inr (t, n) ↦
        rw n (change_row-HasUniqueIds k f keeps rows h, λ i. find-change_row k i f keeps rows)
  ]

delete-refines :
    (k : Text) (rows : List TopologyRow) → HasUniqueIds rows → RefinesAt (delete k) rows
unfolding run_command
delete-refines k rows h = elim (Option-cases (find_row k rows)) [
  | inl n ↦ rw n (h, λ i. ground (arith, same_row k i rows))
  | inr (t, n) ↦ rw n (delete_row-HasUniqueIds k rows h, λ i. find-delete_row k i rows h)
]

run_command-refines :
    (c : StpCommand) (rows : List TopologyRow) → HasUniqueIds rows → RefinesAt c rows
unfolding run_command
run_command-refines (add o) rows h = add-refines o rows h
run_command-refines (modify o) rows h =
    subst
      (λ f.
        HasUniqueIds (run_command (modify o) rows).rows
        × ((i : Text)
            → find_row i (run_command (modify o) rows).rows
              ≡ update o.stp_id (over f) (λ j. find_row j rows) i))
      (fun_ext (modified_row-overwritten o))
      (found-refines o.stp_id (modified_row o) (λ t. refl) rows nothing h)
run_command-refines (delete k) rows h = delete-refines k rows h
run_command-refines (enable k) rows h = found-refines k _ (λ t. refl) rows (has_been true) h
run_command-refines (disable k) rows h = found-refines k _ (λ t. refl) rows (has_been false) h

-- From a table without two rows for one STP ID, any commands lead to such a table, and it has for
-- every ID the row of the same changes to a map: `add` sets an ID that has no row, if the text of
-- the VLANs is valid, to a row of the options with the VLANs in standard form; `modify` overwrites
-- in the row of its ID just the columns whose option is given, not empty and not zero, the VLANs as
-- they are given; `enable` and `disable` change only whether the STP is enabled; and `delete`
-- removes the row.
pub run_commands-refines :
    (cs : List StpCommand) (rows : List TopologyRow)
    → HasUniqueIds rows
    → HasUniqueIds (run_commands cs rows)
      × ((i : Text) → find_row i (run_commands cs rows) ≡ replay_all cs (λ k. find_row k rows) i)
unfolding run_commands
run_commands-refines [] rows h = (h, λ i. refl)
run_commands-refines (c ∷ cs) rows h =
    let step = run_command-refines c rows h in
    let later = run_commands-refines cs (run_command c rows).rows step.0 in
    (later.0, λ i. later.1 i ∙ ap (λ m. replay_all cs m i) (fun_ext step.1))
