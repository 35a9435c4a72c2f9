-- ===== src/Store/Upkeep/Release.antt =====
-- The end of a claim that came to nothing: `release_test_lease` after the claim of a row.
use proxy_fleet.Common.{
  ℕ, true, ◌≡◌, refl, ◌∙◌, none, some, List, find, if◌then◌else◌, unwrap_or, Bool-cases, inl, inr,
  eq_iff, find-update_where, ◌≢◌, ◌⊎◌, sym, ap, arith, Option, false,
}
use proxy_fleet.Common.Float.{Float}
use proxy_fleet.Domain.Lifecycle.{LifecycleState, candidate, testing, waiting_for_port, eq_state}
use proxy_fleet.Store.Schema.{Node, has_id}
use proxy_fleet.Store.Invariant.{id_of}
use proxy_fleet.Store.Upkeep.{released, is_under_test, release_test_lease}
use proxy_fleet.Scheduler.Claim.{ClaimParams, null_or_past, may_take, put_under_test, claim_row}

is_testing : (s : LifecycleState) → eq_state s testing ≡ true → s ≡ testing
is_testing s e = ground arith

not_testing : (s : LifecycleState) → eq_state s testing ≡ false → s ≢ testing
not_testing s e t = absurd (cc (rw t at e))

waited_state : (o : Option LifecycleState) → (unwrap_or o candidate ≢ testing) ⊎ (o ≡ some testing)
waited_state none = inl (not_testing candidate refl)
waited_state (some s) = elim (Bool-cases (eq_state s testing)) [
  | inl e ↦ inr (ap some (is_testing s e))
  | inr e ↦ inl (not_testing s e)
]

module _ (f : Float) where
  -- The state that the claim of a row is to give back.
  unfoldable pub origin : Node f → LifecycleState
  origin n =
      if eq_state n.lifecycle_state waiting_for_port
      then unwrap_or n.waiting_from_state candidate
      else n.lifecycle_state

  own_id : (n : Node f) → has_id f n.id n ≡ true
  own_id n = (eq_iff n.id n.id).1 refl

  put_under_test-id : (p : ClaimParams f) (n : Node f) → (put_under_test f p n).id ≡ n.id
  unfolding put_under_test
  put_under_test-id p n = refl

  take_one :
      (p : ClaimParams f) (row : Node f) (nodes : List (Node f))
      → find (has_id f row.id) nodes ≡ some row
      → null_or_past p.now row.test_lease_until ≡ true
      → find (has_id f row.id) (claim_row f p row.id nodes) ≡ some (put_under_test f p row)
  unfolding claim_row may_take
  take_one p row nodes found free =
      find-update_where (id_of f) row.id (may_take f p row.id) (put_under_test f p) row nodes
        (put_under_test-id p) found
      ∙ rw (own_id row, free) refl

  release_taken :
      (now : ℕ) (p : ClaimParams f) (row : Node f) (nodes : List (Node f))
      → find (has_id f row.id) nodes ≡ some (put_under_test f p row)
      → find (has_id f row.id) (release_test_lease f now row.id nodes)
        ≡ some (released f now (put_under_test f p row))
  unfolding release_test_lease put_under_test
  release_taken now p row nodes found =
      find-update_where (id_of f) row.id (is_under_test f row.id) (released f now)
        (put_under_test f p row) nodes (λ n. refl) found
      ∙ rw (own_id row) refl

  origin-of_released :
      (now : ℕ) (p : ClaimParams f) (n : Node f)
      → ((released f now (put_under_test f p n)).lifecycle_state ≡ origin n)
        × ((released f now (put_under_test f p n)).status ≡ origin n)
        × ((released f now (put_under_test f p n)).test_lease_until ≡ none)
        × ((released f now (put_under_test f p n)).testing_from_state ≡ none)
  unfolding put_under_test origin
  origin-of_released now p n = elim (Bool-cases (eq_state n.lifecycle_state waiting_for_port)) [
    | inl e ↦ rw e (refl, refl, refl, refl)
    | inr e ↦ rw e (refl, refl, refl, refl)
  ]

  origin_ne_testing :
      (n : Node f)
      → eq_state n.lifecycle_state testing ≡ false
      → (origin n ≢ testing) ⊎ (n.waiting_from_state ≡ some testing)
  unfolding origin
  origin_ne_testing n h = elim (Bool-cases (eq_state n.lifecycle_state waiting_for_port)) [
    | inl e ↦ rw e (waited_state n.waiting_from_state)
    | inr e ↦ rw e (inl (not_testing n.lifecycle_state h))
  ]

  -- A row that is not under test and whose test lease is over or unset, and that is claimed and then
  -- released, is back in the state that it was claimed from, or, where it waited for a port, in the
  -- state that it waited from, or CANDIDATE where that is unset; its test lease and the state it was
  -- tested from are unset. It is not under test, unless it waited for a port to be under test.
  pub claim_release :
      (p : ClaimParams f) (now : ℕ) (row : Node f) (nodes : List (Node f))
      → find (has_id f row.id) nodes ≡ some row
      → null_or_past p.now row.test_lease_until ≡ true
      → eq_state row.lifecycle_state testing ≡ false
      → (m : Node f) × (find
            (has_id f row.id)
            (release_test_lease f now row.id (claim_row f p row.id nodes))
          ≡ some m)
        × (m.lifecycle_state ≡ origin row)
        × (m.status ≡ origin row)
        × (m.test_lease_until ≡ none)
        × (m.testing_from_state ≡ none)
        × ((m.lifecycle_state ≢ testing) ⊎ (row.waiting_from_state ≡ some testing))
  claim_release p now row nodes found free rests =
      let (state, status, lease, from) = origin-of_released now p row in
      (
        released f now (put_under_test f p row),
        release_taken now p row _ (take_one p row nodes found free),
        state,
        status,
        lease,
        from,
        elim (origin_ne_testing row rests) [
          | inl other ↦ inl (λ e. other (sym state ∙ e))
          | inr waited ↦ inr waited
        ],
      )
