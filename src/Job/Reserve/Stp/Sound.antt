-- ===== src/Job/Reserve/Stp/Sound.antt =====
-- What an end of a connection is given, and when: the checks of `_process_stp`.
use su_pa.Base.{
  All, Bool-cases, [], ◌∷◌, Text, text_eq, ℕ, ◌+◌, ◌≤◌, ◌≡◌, ◌≢◌, refl, sym, ap, ◌∙◌, Bool, true,
  false, not, ◌&&◌, List, Option, none, some, Option-cases, inl, inr, arith,
}
use su_pa.Db.Model.{Endpoint, Topology}
use su_pa.Job.Reserve.Resources.{StpResources}
use su_pa.Job.Reserve.Stp.{
  ok, find_stp, urn_of, used_bandwidth, available_vlans, Candidates, process_stp,
}
use su_pa.Util.Vlan.{VlanRanges, elements, contains, len, and}
use su_pa.Util.Vlan.Canonical.{contains-elements}
use su_pa.Util.Vlan.Algebra.{InRange, and-Holds, sub-Holds, len_zero_iff}

abbrev pub is_used : Option StpResources → ℕ → Bool
is_used none k = false
is_used (some s) k = contains s.vlans k

-- The requested VLANs that the STP offers and that no reservation uses.
abbrev pub is_free : Option StpResources → Topology → Endpoint → ℕ → Bool
is_free used t e k = contains e.vlans k && (contains t.vlans k && not (is_used used k))

abbrev pub Available : Option StpResources → Topology → VlanRanges → Type 0
Available used t o =
    (available_vlans t.vlans used ≡ ok o)
    × ((k : ℕ) → contains o k ≡ (contains t.vlans k && not (is_used used k)))

total-Available :
    (used : Option StpResources) (t : Topology)
    → InRange t.vlans
    → (o : VlanRanges) × Available used t o
total-Available none t h = (t.vlans, (refl, λ k. ground arith))
total-Available (some s) t h =
    let (o, built, _, holds) = sub-Holds t.vlans (elements s.vlans) h in
    (
      o,
      (
        ground (arith, built),
        λ k. holds k ∙ ap (λ b. contains t.vlans k && not b) (sym (contains-elements s.vlans k)),
      ),
    )

candidates_total :
    (used : Option StpResources) (t : Topology) (e : Endpoint) (o : VlanRanges)
    → InRange e.vlans
    → Available used t o
    → (w : VlanRanges) × (and e.vlans (elements o) ≡ some w)
      × ((k : ℕ) → contains w k ≡ is_free used t e k)
candidates_total used t e o h a =
    let (w, built, _, holds) = and-Holds e.vlans (elements o) h in
    (
      w,
      built,
      λ k. holds k ∙ ap (λ b. contains e.vlans k && b) (sym (contains-elements o k) ∙ a.1 k),
    )

abbrev pub Acceptable : Text → Option StpResources → Topology → ℕ → Endpoint → Type 0
Acceptable topology_id used t bandwidth e =
    (t.enabled ≡ true)
    × (text_eq (urn_of e.domain e.topology) topology_id ≡ true)
    × (bandwidth + used_bandwidth used ≤ t.bandwidth)

process_stp_ok :
    (topology_id : Text) (table : List Topology) (used : Option StpResources) (bandwidth : ℕ)
    (e : Endpoint) (t : Topology) (o w : VlanRanges) (c : Candidates)
    → find_stp e.stp_id table ≡ some t
    → available_vlans t.vlans used ≡ ok o
    → and e.vlans (elements o) ≡ some w
    → process_stp topology_id table (some used) bandwidth e ≡ ok c
    → Acceptable topology_id used t bandwidth e
      × (c.port_id ≡ t.port_id)
      × (c.vlans ≡ w)
      × (len w ≢ 0)
unfolding process_stp
process_stp_ok topology_id table used bandwidth e t o w c f a b h = ground arith

process_stp_unknown :
    (topology_id : Text) (table : List Topology) (used : Option (Option StpResources))
    (bandwidth : ℕ) (e : Endpoint) (c : Candidates)
    → find_stp e.stp_id table ≡ none
    → process_stp topology_id table used bandwidth e ≢ ok c
unfolding process_stp
process_stp_unknown topology_id table used bandwidth e c f h = ground arith

pub process_stp_unreadable :
    (topology_id : Text) (table : List Topology) (bandwidth : ℕ) (e : Endpoint) (c : Candidates)
    → process_stp topology_id table none bandwidth e ≢ ok c
unfolding process_stp
process_stp_unreadable topology_id table bandwidth e c h = ground arith

-- What an accepted end satisfies: its STP is known.
abbrev pub Sound : Text → List Topology → Option StpResources → ℕ → Endpoint → Candidates → Type 0
Sound topology_id table used bandwidth e c =
    (t : Topology) × (find_stp e.stp_id table ≡ some t)
    × Acceptable topology_id used t bandwidth e
    × (c.port_id ≡ t.port_id)
    × (len c.vlans ≢ 0)
    × ((k : ℕ) → contains c.vlans k ≡ is_free used t e k)

known-Sound :
    (topology_id : Text) (table : List Topology) (used : Option StpResources) (bandwidth : ℕ)
    (e : Endpoint) (t : Topology) (c : Candidates)
    → InRange e.vlans
    → InRange t.vlans
    → find_stp e.stp_id table ≡ some t
    → process_stp topology_id table (some used) bandwidth e ≡ ok c
    → Sound topology_id table used bandwidth e c
known-Sound topology_id table used bandwidth e t c he ht f h =
    let (o, a) = total-Available used t ht in
    let (w, built, holds) = candidates_total used t e o he a in
    let (ok_t, port, vlans, some_left) =
      process_stp_ok topology_id table used bandwidth e t o w c f a.0 built h in
    (t, f, ok_t, port, rw vlans some_left, λ k. rw vlans (holds k))

-- If an end of a new reservation is accepted, its STP is known, enabled and of our topology, the
-- bandwidth in use and the requested one fit together into the STP's capacity, and the candidates are exactly the
-- VLANs that are requested, offered and not in use, of which there is one; the port is the STP's.
pub process_stp-Sound :
    (topology_id : Text) (table : List Topology) (used : Option StpResources) (bandwidth : ℕ)
    (e : Endpoint) (c : Candidates)
    → InRange e.vlans
    → ((t : Topology) → find_stp e.stp_id table ≡ some t → InRange t.vlans)
    → process_stp topology_id table (some used) bandwidth e ≡ ok c
    → Sound topology_id table used bandwidth e c
process_stp-Sound topology_id table used bandwidth e c he ht h =
    elim (Option-cases (find_stp e.stp_id table)) [
      | inl n ↦ absurd (process_stp_unknown topology_id table (some used) bandwidth e c n h)
      | inr (t, f) ↦ known-Sound topology_id table used bandwidth e t c he (ht t f) f h
    ]

held_len : (v : VlanRanges) (k : ℕ) → contains v k ≡ true → len v ≢ 0
held_len v k h z = ground (arith, (len_zero_iff v).0 z k)

-- An end whose requested VLANs and whose STP's VLANs are within the range is accepted if the STP
-- is known, enabled and of our topology, the requested bandwidth and the one in use fit into its
-- capacity, and some VLAN is requested, offered and not in use.
pub process_stp_complete :
    (topology_id : Text) (table : List Topology) (used : Option StpResources) (bandwidth : ℕ)
    (e : Endpoint) (t : Topology) (k : ℕ)
    → InRange e.vlans
    → InRange t.vlans
    → find_stp e.stp_id table ≡ some t
    → Acceptable topology_id used t bandwidth e
    → is_free used t e k ≡ true
    → (c : Candidates) × (process_stp topology_id table (some used) bandwidth e ≡ ok c)
unfolding process_stp
process_stp_complete topology_id table used bandwidth e t k he ht f fits free =
    let (o, a) = total-Available used t ht in
    let (w, built, holds) = candidates_total used t e o he a in
    (
      record { vlans = w; port_id = t.port_id },
      ground (
        arith,
        f,
        a.0,
        built,
        fits.0,
        fits.1,
        fits.2,
        held_len e.vlans k (ground arith),
        held_len o k (a.1 k ∙ ground arith),
        held_len w k (holds k ∙ free),
      ),
    )

-- What holds of all rows of the table holds of the one that is found.
pub find_stp-All :
    (P : Topology → Type 0) (stp : Text) (table : List Topology) (t : Topology)
    → All P table
    → find_stp stp table ≡ some t
    → P t
unfolding find_stp
find_stp-All P stp [] t all h = ground arith
find_stp-All P stp (u ∷ us) t all h = elim (Bool-cases (text_eq u.stp_id stp)) [
  | inl y ↦ rw (← found y) all.0
  | inr n ↦ find_stp-All P stp us t all.1 (ground arith)
]
  where
    found : text_eq u.stp_id stp ≡ true → u ≡ t
    found y = ground arith
