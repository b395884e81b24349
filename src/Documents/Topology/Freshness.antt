-- ===== src/Documents/Topology/Freshness.antt =====
-- How often the NRM is asked for its topology, and what ends the refreshing of the table.
use su_pa.Base.{
  ℕ, suc, ◌+◌, ◌*◌, ◌≤◌, ◌≡◌, refl, true, false, List, [], ◌∷◌, arith, All, ltb, inl, inr, ◌⊎◌,
}
use su_pa.Documents.Topology.{Stp, Settings, Refreshed, World, stps, refresh_topology, refresh_all}

-- The NRM answers and the database session succeeds.
pub record Answers (w : World) : Type 0 where
  pub listed : List Stp
  pub answered : w.nrm ≡ stps listed
  pub succeeds : w.session_fails ≡ false

step_cases :
    (c : Settings) (w : World) (r : Refreshed)
    → Answers w
    → let r' = (refresh_topology c w r).state in
      ((r'.fetches ≡ r.fetches) × (r'.last_refresh ≡ r.last_refresh))
      ⊎ ((r'.fetches ≡ suc r.fetches) × (r.last_refresh + c.topology_freshness ≤ r'.last_refresh))
unfolding refresh_topology
step_cases c w r h = rw (h.answered, h.succeeds) (ground arith)

bound_of_cases :
    (f a b k m : ℕ) → ((m ≡ k) × (b ≡ a)) ⊎ ((m ≡ suc k) × (a + f ≤ b)) → a + m * f ≤ b + k * f
bound_of_cases f a b k m (inl h) = rw (h.0, h.1) (omega arith)
bound_of_cases f a b k m (inr h) = rw h.0 (grind arith)

-- While the NRM answers and the database sessions succeed, the calls of the NRM are at least
-- `topology_freshness` apart: so many of them, however often the documents are requested, take
-- at least as many times that long.
pub refresh_all-fetches :
    (c : Settings) (ws : List World) (r : Refreshed)
    → All Answers ws
    → let r' = refresh_all c ws r in
      r.last_refresh + r'.fetches * c.topology_freshness
      ≤ r'.last_refresh + r.fetches * c.topology_freshness
unfolding refresh_all
refresh_all-fetches c [] r h = omega arith
refresh_all-fetches c (w ∷ ws) r h = omega (
  arith,
  bound_of_cases _ _ _ _ _ (step_cases c w r h.0),
  refresh_all-fetches c ws (refresh_topology c w r).state h.1,
)

refresh_all-locked :
    (c : Settings) (ws : List World) (r : Refreshed) → r.locked ≡ true → refresh_all c ws r ≡ r
unfolding refresh_all refresh_topology
refresh_all-locked c [] r h = refl
refresh_all-locked c (w ∷ ws) r h = ground (arith, refresh_all-locked c ws r)

-- If the database session of a refresh fails, the lock stays held: the exception is raised, and no
-- later refresh changes the table or asks the NRM again.
pub failed_session_stops_refresh :
    (c : Settings) (w : World) (r : Refreshed) (ss : List Stp) (ws : List World)
    → c.manual_topology ≡ false
    → r.locked ≡ false
    → ltb w.now (r.last_refresh + c.topology_freshness) ≡ false
    → w.nrm ≡ stps ss
    → w.session_fails ≡ true
    → let first = refresh_topology c w r in
      let after = refresh_all c ws first.state in
      (first.raises ≡ true) × (after.rows ≡ r.rows) × (after.fetches ≡ r.fetches + 1)
unfolding refresh_topology
failed_session_stops_refresh c w r ss ws m l t n f =
    rw (m, l, t, n, f) (ground (arith, refresh_all-locked c ws held refl))
  where
    held : Refreshed
    held = record r { locked = true; fetches = r.fetches + 1 }
