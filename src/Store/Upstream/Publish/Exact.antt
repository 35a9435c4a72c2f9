-- ===== src/Store/Upstream/Publish/Exact.antt =====
-- Which configurations are published.
use mathlib.Core.List.{Memᴰ}
use proxy_fleet.Common.{
  Bool-cases, ◌||◌, leb, ℕ, ◌<◌, ◌≤◌, String, true, false, ◌≡◌, refl, ◌⊎◌, inl, inr, Option, none,
  some, List, filter, sort_by, All, All-map, All-filter, All-sort_by, arith, leb,
}
use proxy_fleet.Common.Membership.{
  All-Mem, All-Mem-sort_by, Mem-map, Mem-filter, All-of_map, All-at,
}
use proxy_fleet.Common.Float.{Float}
use proxy_fleet.Domain.Lifecycle.{LifecycleState, eq_state}
use proxy_fleet.Store.Schema.{Node}
use proxy_fleet.Store.Upstream.{RefreshRun}
use proxy_fleet.Store.Upstream.Refresh.{unleased}
use proxy_fleet.Store.Upstream.Publish.{is_published, publication_snapshot, ranks_before}

module _ (f : Float) where
  -- A node that is fit for the feed: valid, under a lease that has not run out, not thrown out.
  pub record IsLeased (now : ℕ) (n : Node f) : Type 0 where
    pub valid : n.structurally_valid ≡ true
    pub leased : (until : ℕ) × (n.publication_lease_until ≡ some until) × (now < until)
    pub kept :
        (eq_state n.lifecycle_state LifecycleState.invalid ≡ false)
        × (eq_state n.lifecycle_state LifecycleState.retired ≡ false)

  -- A node that is not: each way spelled out.
  abbrev pub IsUnfit : ℕ → Node f → Type 0
  IsUnfit now n =
      (n.structurally_valid ≡ false)
      ⊎ (n.publication_lease_until ≡ none)
      ⊎ ((until : ℕ) × (n.publication_lease_until ≡ some until) × (until ≤ now))
      ⊎ (n.lifecycle_state ≡ LifecycleState.invalid)
      ⊎ (n.lifecycle_state ≡ LifecycleState.retired)

  published-IsLeased : (now : ℕ) (n : Node f) → is_published f now n ≡ true → IsLeased now n
  unfolding is_published
  published-IsLeased now n h = record {
    valid = ground arith;
    leased = leased n.publication_lease_until (ground arith);
    kept = (ground arith, ground arith);
  }
    where
      leased :
          (o : Option ℕ)
          → elim o [ none ↦ true | some t ↦ leb t now ] ≡ false
          → (until : ℕ) × (o ≡ some until) × (now < until)
      leased none e = absurd (cc e)
      leased (some until) e = (until, refl, ground arith)

  thrown_out :
      (s : LifecycleState)
      → (eq_state s LifecycleState.invalid || eq_state s LifecycleState.retired) ≡ true
      → (s ≡ LifecycleState.invalid) ⊎ (s ≡ LifecycleState.retired)
  thrown_out s h = ground arith

  no_lease :
      (now : ℕ) (o : Option ℕ)
      → elim o [ none ↦ true | some t ↦ leb t now ] ≡ true
      → (o ≡ none) ⊎ ((until : ℕ) × (o ≡ some until) × (until ≤ now))
  no_lease now none h = inl refl
  no_lease now (some until) h = inr (until, refl, ground arith)

  unpublished-IsUnfit : (now : ℕ) (n : Node f) → is_published f now n ≡ false → IsUnfit now n
  unfolding is_published
  unpublished-IsUnfit now n h = elim (Bool-cases n.structurally_valid) [
    | inr invalid ↦ inl invalid
    | inl valid ↦ elim (Bool-cases (unleased f now n)) [
      | inl over ↦ elim (no_lease now n.publication_lease_until over) [
        | inl unset ↦ inr (inl unset)
        | inr past ↦ inr (inr (inl past))
      ]
      | inr leased ↦
          let out : (eq_state n.lifecycle_state LifecycleState.invalid
                || eq_state n.lifecycle_state LifecycleState.retired)
              ≡ true =
            ground arith in
          elim (thrown_out n.lifecycle_state out) [
            | inl e ↦ inr (inr (inr (inl e)))
            | inr e ↦ inr (inr (inr (inr e)))
          ]
    ]
  ]

  module _ (now : ℕ) (nodes : List (Node f)) where
    abbrev passing : List (Node f)
    passing = filter (is_published f now) nodes

    -- The configuration of a node of the table that is fit for the feed.
    abbrev pub IsOfLeased : String → Type 0
    IsOfLeased raw = (n : Node f) × Memᴰ n nodes × IsLeased now n × (raw ≡ n.raw_config)

    -- The node is not fit for the feed, or the snapshot holds its configuration.
    abbrev pub IsCovered : List RefreshRun → Node f → Type 0
    IsCovered runs n =
        IsUnfit now n ⊎ Memᴰ n.raw_config (publication_snapshot f now nodes runs).raw_configs

    raw_of : Node f → String
    raw_of n = n.raw_config

    all-IsLeased : All (λ n. Memᴰ n nodes × IsLeased now n) passing
    all-IsLeased =
        All-filter _ (is_published f now) nodes
          (All-map _ nodes (λ n m e. (m, published-IsLeased now n e)) (All-Mem nodes))

    -- The published feed is exact: each of its configurations is that of a node of the table that is
    -- valid, under a lease that has not run out and neither INVALID nor RETIRED, and each node that
    -- is not one of these exceptions has its configuration in the feed.
    pub publication_snapshot-exact :
        (runs : List RefreshRun)
        → All IsOfLeased (publication_snapshot f now nodes runs).raw_configs
          × All (IsCovered runs) nodes
    unfolding publication_snapshot raw_of
    publication_snapshot-exact runs = (
      All-of_map IsOfLeased raw_of (sort_by (ranks_before f) passing) (
          All-map _ (sort_by (ranks_before f) passing) (λ n h. (n, h.0, h.1, refl))
            (All-sort_by _ (ranks_before f) passing all-IsLeased)),
      All-map _ nodes
          (λ n m. elim m [
            | inl out ↦ inl (unpublished-IsUnfit now n out)
            | inr there ↦ inr (
                Mem-map raw_of n (sort_by (ranks_before f) passing)
                  (All-at _ n passing (All-Mem-sort_by (ranks_before f) passing) there))
          ])
          (Mem-filter (is_published f now) nodes),
    )
