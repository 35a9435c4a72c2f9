-- ===== src/Store/Clients/Cooldown.antt =====
-- What a client's feedback does to the circuit between the client and a node.
use proxy_fleet.Common.{
  ℕ, ◌+◌, ◌≤◌, String, true, ◌≡◌, refl, none, some, List, [], ◌∷◌, any, find, eq_iff, ok,
  Bool-cases, inl, inr, arith,
}
use proxy_fleet.Common.Float.{Float}
use proxy_fleet.Domain.Evidence.{seconds}
use proxy_fleet.Store.Schema.{Node, has_id}
use proxy_fleet.Store.Clients.{
  closed, opened, Feedback, used, broken, rate_limited, read_feedback, Penalty, cooldown_ceiling,
  ClientState, fresh_client, is_client, upsert, Clients, Penalties, judge, record_feedback,
  feedback_on, apply_client_feedback,
}

cooldown_ceiling-le :
    (p : Penalty) (streak : ℕ) → cooldown_ceiling p streak ≤ p.max_cooldown_seconds
unfolding cooldown_ceiling
cooldown_ceiling-le p streak = omega arith

module _ (f : Float) where
  -- The circuit is open until a time within the cap.
  abbrev pub OpenUntil : ℕ → Penalty → ClientState f → Type 0
  OpenUntil now p row =
      (row.state ≡ opened)
      × ((until : ℕ) × (row.cooldown_until ≡ some until)
          × (now ≤ until)
          × (until ≤ now + seconds p.max_cooldown_seconds))

  -- What each feedback leaves.
  abbrev pub Judged : ℕ → Penalties f → Feedback → ClientState f → Type 0
  Judged now p used row = (row.state ≡ closed) × (row.cooldown_until ≡ none) × (row.fail_streak ≡ 0)
  Judged now p broken row = OpenUntil now p.broken_penalty row
  Judged now p rate_limited row = OpenUntil now p.rate_penalty row

  module _ (draw : ℕ → ℕ) (drawn : (c : ℕ) → draw c ≤ c) (now : ℕ) (p : Penalties f) where
    cooldown_bounds :
        (penalty : Penalty) (streak : ℕ)
        → (now ≤ now + seconds (draw (cooldown_ceiling penalty streak)))
          × (now + seconds (draw (cooldown_ceiling penalty streak))
              ≤ now + seconds penalty.max_cooldown_seconds)
    cooldown_bounds penalty streak =
        let below = drawn (cooldown_ceiling penalty streak) in
        let cap = cooldown_ceiling-le penalty streak in (omega arith, omega arith)

    judge-Judged :
        (feedback : Feedback) (row : ClientState f)
        → Judged now p feedback (judge f draw now p feedback row)
    unfolding judge
    judge-Judged used row = (refl, refl, refl)
    judge-Judged broken row =
        let b = cooldown_bounds p.broken_penalty (row.fail_streak + 1) in
        (refl, (_, refl, b.0, b.1))
    judge-Judged rate_limited row =
        let b = cooldown_bounds p.rate_penalty (row.rate_limit_streak + 1) in
        (refl, (_, refl, b.0, b.1))

  judge-is_client :
      (draw : ℕ → ℕ) (now : ℕ) (p : Penalties f) (feedback : Feedback) (client node : String)
      (row : ClientState f)
      → is_client f client node (judge f draw now p feedback row) ≡ is_client f client node row
  unfolding judge
  judge-is_client draw now p used client node row = refl
  judge-is_client draw now p broken client node row = refl
  judge-is_client draw now p rate_limited client node row = refl

  fresh-is_client :
      (client node : String) → is_client f client node (fresh_client f client node) ≡ true
  fresh-is_client client node = rw ((eq_iff client client).1 refl, (eq_iff node node).1 refl) refl

  -- The row of the key after an upsert comes from `set`.
  find-upsert :
      (client node : String) (set : ClientState f → ClientState f) (rows : List (ClientState f))
      → ((row : ClientState f) → is_client f client node (set row) ≡ is_client f client node row)
      → (row : ClientState f) × (find (is_client f client node) (upsert f client node set rows)
          ≡ some (set row))
  unfolding upsert
  find-upsert client node set [] same = (
    fresh_client f client node,
    rw (same (fresh_client f client node), fresh-is_client client node) refl,
  )
  find-upsert client node set (row ∷ rows) same = elim (Bool-cases (is_client f client node row)) [
    | inl here ↦ (row, rw (here, same row, here) refl)
    | inr away ↦ let (r, e) = find-upsert client node set rows same in (r, rw (away, away) e)
  ]

  -- A feedback that the service knows, about a node that it knows, is always applied. A node that
  -- was used has its circuit closed, without a cooldown; one that was broken or limited the rate has
  -- it open, for no longer than the cap of its penalty.
  pub feedback_circuit :
      (draw : ℕ → ℕ)
      → ((c : ℕ) → draw c ≤ c)
      → (now : ℕ) (p : Penalties f) (client node status : String) (nodes : List (Node f))
        (db : Clients f) (feedback : Feedback)
      → any (has_id f node) nodes ≡ true
      → read_feedback status ≡ some feedback
      → (db' : Clients f) × (apply_client_feedback f draw now p client node status nodes db
          ≡ ok db')
        × (row : ClientState f) × (find (is_client f client node) db'.rows ≡ some row)
        × Judged now p feedback row
  unfolding apply_client_feedback feedback_on record_feedback
  feedback_circuit draw drawn now p client node status nodes db feedback known read =
      let (old, found) =
        find-upsert client node (judge f draw now p feedback) db.rows
          (judge-is_client draw now p feedback client node) in
      (
        record_feedback f draw now p client node status feedback db,
        rw (known, read) refl,
        judge f draw now p feedback old,
        found,
        judge-Judged draw drawn now p feedback old,
      )
