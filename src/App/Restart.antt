-- ===== src/App/Restart.antt =====
-- `reconcile_active_runtimes` of src/src/app.rs, which starts a runtime for every node that may be
-- served, with `active_runtime_candidates` of src/src/storage/mod.rs.
use Prim.Native.String.{compare}
use text.Mathlib.Text.{is_lt}
use proxy_fleet.Common.{
  ℕ, ◌+◌, ◌-◌, ◌≡◌, String, Bool, true, false, not, ◌&&◌, ◌||◌, List, [], ◌∷◌, filter, map, length,
  sort_by, if◌then◌else◌, Result, ok, err, arith, Bool-cases, inl, inr,
}
use proxy_fleet.Common.State.{State}
use proxy_fleet.Common.Text.{contains_text}
use proxy_fleet.Common.Float.{Float}
use proxy_fleet.Domain.Lifecycle.{active, eq_state}
use proxy_fleet.Store.Schema.{Node}
use proxy_fleet.Store.Upstream.Refresh.{unleased}

pub record RuntimeCandidate : Type 0 where
  pub id : String
  pub raw_config : String

module _ (f : Float) where
  open f use {lt}

  -- `ORDER BY health_score DESC, config_hash ASC`
  abbrev healthier : Node f → Node f → Bool
  healthier a b =
      lt b.health_score a.health_score
      || (not (lt a.health_score b.health_score) && is_lt (compare a.config_hash b.config_hash))

  abbrev is_served : ℕ → Node f → Bool
  is_served now n =
      eq_state n.lifecycle_state active && n.structurally_valid && not (unleased f now n)

  unfoldable pub active_runtime_candidates : ℕ → List (Node f) → List RuntimeCandidate
  active_runtime_candidates now nodes =
      map (λ (n : Node f). record { id = n.id; raw_config = n.raw_config })
        (sort_by healthier (filter (is_served now) nodes))

  -- `ensure` starts one runtime, or answers with its port.
  module _ {W : Type 0} (ensure : RuntimeCandidate → State W (Result String ℕ)) where
    -- The counts so far, after one answer; `none` ends the loop.
    unfoldable pub count_answer : ℕ → Result String ℕ → ℕ × ℕ → (ℕ × ℕ) × Bool
    count_answer total (ok port) (started, failed) = ((started + 1, failed), true)
    count_answer total (err error) (started, failed) =
        if contains_text error "persistent Xray runtime cap"
        then ((started, total - started), false)
        else ((started, failed + 1), true)

    unfoldable pub restart_each : ℕ → List RuntimeCandidate → ℕ × ℕ → State W (ℕ × ℕ)
    unfolding count_answer
    restart_each total [] counts w = (counts, w)
    restart_each total (c ∷ cs) counts w =
        let (answer, w') = ensure c w in
        let (counts', goes_on) = count_answer total answer counts in
        let rest = restart_each total cs counts' w' in if goes_on then rest else (counts', w')

    unfoldable pub reconcile_active_runtimes : ℕ → List (Node f) → State W (ℕ × ℕ)
    unfolding restart_each active_runtime_candidates
    reconcile_active_runtimes now nodes =
        let candidates = active_runtime_candidates now nodes in
        restart_each (length candidates) candidates (0, 0)

    restart_each-total :
        (total : ℕ) (cs : List RuntimeCandidate) (counts : ℕ × ℕ) (w : W)
        → counts.0 + counts.1 + length cs ≡ total
        → (restart_each total cs counts w).0.0 + (restart_each total cs counts w).0.1 ≡ total
    unfolding restart_each
    restart_each-total total [] counts w e = omega (arith, e)
    restart_each-total total (c ∷ cs) counts w e =
        one (ensure c w).0 (λ later h. restart_each-total total cs later (ensure c w).1 h)
      where
        one :
            (answer : Result String ℕ)
            → ((later : ℕ × ℕ)
                → later.0 + later.1 + length cs ≡ total
                → (restart_each total cs later (ensure c w).1).0.0
                    + (restart_each total cs later (ensure c w).1).0.1
                  ≡ total)
            → let (counts', goes_on) = count_answer total answer counts in
              let r =
                if goes_on
                then restart_each total cs counts' (ensure c w).1
                else (counts', (ensure c w).1) in
              r.0.0 + r.0.1 ≡ total
        one (ok port) next = next (counts.0 + 1, counts.1) (omega (arith, e))
        one (err error) next =
            elim (Bool-cases (contains_text error "persistent Xray runtime cap")) [
              | inl t ↦ rw (t, count_answer) (omega (arith, e))
              | inr t ↦ rw (t, count_answer) (next (counts.0, counts.1 + 1) (omega (arith, e)))
            ]

    -- Every candidate is counted once, as started or as failed, also where the cap ends the loop.
    pub reconcile_active_runtimes-accounts :
        (now : ℕ) (nodes : List (Node f)) (w : W)
        → (reconcile_active_runtimes now nodes w).0.0 + (reconcile_active_runtimes now nodes w).0.1
          ≡ length (active_runtime_candidates now nodes)
    unfolding reconcile_active_runtimes
    reconcile_active_runtimes-accounts now nodes w =
        restart_each-total _ (active_runtime_candidates now nodes) (0, 0) w (omega arith)
