-- ===== src/Store/Upkeep.antt =====
-- The statements of src/src/storage/mod.rs that change single rows of `nodes` outside of a test:
-- leases, ports, metadata, and the operator's actions. Each takes the instant that it reads.
pub mod Kept
pub mod Release
use proxy_fleet.Common.{
  ℕ, String, Bool, true, false, not, ◌&&◌, ◌||◌, Option, none, some, List, filter, length,
  update_where, count_if, ltb, leb, ◌==◌, ◌+◌, max, if◌then◌else◌, is_some, or_else, unwrap_or,
  Result, ok, err, ensure, ◌>>=◌,
}
use proxy_fleet.Common.Float.{Float}
use proxy_fleet.Domain.Lifecycle.{
  LifecycleState, candidate, testing, active, probation, dormant, retired, waiting_for_port,
  eq_state,
}
use proxy_fleet.Domain.Evidence.{seconds, hours}
use proxy_fleet.Store.Schema.{Node, ExitMetadata, has_id}

-- `COALESCE(column, value)`
abbrev coalesce {ℓ} : {A : Type ℓ} → Option A → A → A
coalesce none value = value
coalesce (some a) value = a

abbrev past : ℕ → Option ℕ → Bool
past now none = true
past now (some t) = leb t now

-- `tombstone_until IS NOT NULL AND tombstone_until <= now`
abbrev expired : ℕ → Option ℕ → Bool
expired now none = false
expired now (some t) = leb t now

module _ (f : Float) where
  abbrev pub Nodes : Type 0
  Nodes = List (Node f)

  abbrev pub released : ℕ → Node f → Node f
  released now n = record n {
    lifecycle_state = coalesce n.testing_from_state n.lifecycle_state;
    status = coalesce n.testing_from_state n.status;
    testing_from_state = none;
    test_lease_until = none;
    updated_at = now;
  }

  abbrev pub is_under_test : String → Node f → Bool
  is_under_test id n = has_id f id n && eq_state n.lifecycle_state testing

  unfoldable pub release_test_lease : ℕ → String → Nodes → Nodes
  release_test_lease now id nodes = update_where (is_under_test id) (released now) nodes

  abbrev pub waiting : ℕ → ℕ → Node f → Node f
  waiting now retry_after n = record n {
    waiting_from_state = some n.lifecycle_state;
    lifecycle_state = waiting_for_port;
    status = waiting_for_port;
    test_lease_until = none;
    testing_from_state = none;
    next_test_at = some (now + max retry_after (seconds 1));
    state_entered_at = some now;
    updated_at = now;
  }

  abbrev pub is_valid_id : String → Node f → Bool
  is_valid_id id n = has_id f id n && n.structurally_valid

  unfoldable pub mark_waiting_for_port : ℕ → ℕ → String → Nodes → Nodes
  mark_waiting_for_port now retry_after id nodes =
      update_where (is_valid_id id) (waiting now retry_after) nodes

  abbrev pub with_port : ℕ → Option ℕ → Node f → Node f
  with_port now port n = record n { main_port = port; updated_at = now }

  unfoldable pub set_main_port : ℕ → String → ℕ → Nodes → Nodes
  set_main_port now id port nodes = update_where (has_id f id) (with_port now (some port)) nodes

  unfoldable pub clear_main_port : ℕ → String → Nodes → Nodes
  clear_main_port now id nodes = update_where (has_id f id) (with_port now none) nodes

  abbrev pub has_port : Node f → Bool
  has_port n = is_some n.main_port

  -- `seed_legacy_download_leases`, with whether `service_state` already says that it has run.
  unfoldable pub has_legacy_download : Node f → Bool
  has_legacy_download n =
      eq_state n.lifecycle_state active
      && n.structurally_valid
      && ltb 0 (unwrap_or n.download_kbps 0)
      && not (is_some n.publication_lease_until)

  abbrev pub with_legacy_lease : ℕ → ℕ → Node f → Node f
  with_legacy_lease now until n = record n {
    publication_lease_until = some until;
    publication_lease_kind = some "legacy-download-seed";
    updated_at = now;
  }

  unfoldable pub seed_legacy_download_leases : ℕ → ℕ → Bool → Nodes → ℕ × (Nodes × Bool)
  unfolding has_legacy_download
  seed_legacy_download_leases now span true nodes = (0, (nodes, true))
  seed_legacy_download_leases now span false nodes = (
    count_if has_legacy_download nodes,
    (
      update_where has_legacy_download (with_legacy_lease now (now + hours (max span 1))) nodes,
      true,
    ),
  )

  unfoldable pub clear_stale_runtime_ports : ℕ → Nodes → ℕ × Nodes
  clear_stale_runtime_ports now nodes =
      (count_if has_port nodes, update_where has_port (with_port now none) nodes)

  -- `exit_info_fetched_at <= now - cache_ttl`, with the term on the other side.
  abbrev stale : ℕ → ℕ → Option ℕ → Bool
  stale now cache_ttl none = true
  stale now cache_ttl (some at) = leb (at + cache_ttl) now

  abbrev pub may_refresh : ℕ → ℕ → String → Node f → Bool
  may_refresh now cache_ttl id n =
      has_id f id n && past now n.metadata_lease_until && stale now cache_ttl n.exit_info_fetched_at

  abbrev pub with_metadata_lease : Option ℕ → Node f → Node f
  with_metadata_lease lease n = record n { metadata_lease_until = lease }

  unfoldable pub claim_metadata_refresh : ℕ → String → ℕ → ℕ → Nodes → Bool × Nodes
  claim_metadata_refresh now id cache_ttl lease nodes = (
    count_if (may_refresh now cache_ttl id) nodes == 1,
    update_where (may_refresh now cache_ttl id) (with_metadata_lease (some (now + lease))) nodes,
  )

  abbrev pub with_metadata : ℕ → ExitMetadata → Node f → Node f
  with_metadata now metadata n = record n {
    exit_info = some metadata;
    exit_info_fetched_at = some now;
    metadata_lease_until = none;
    updated_at = now;
  }

  unfoldable pub record_exit_metadata : ℕ → String → ExitMetadata → Nodes → Nodes
  record_exit_metadata now id metadata nodes =
      update_where (has_id f id) (with_metadata now metadata) nodes

  unfoldable pub release_metadata_lease : String → Nodes → Nodes
  release_metadata_lease id nodes = update_where (has_id f id) (with_metadata_lease none) nodes

  abbrev pub revived : ℕ → Node f → Node f
  revived now n = record n {
    lifecycle_state = probation;
    status = probation;
    next_test_at = some now;
    updated_at = now;
  }

  abbrev pub is_revivable_dormant : Node f → Bool
  is_revivable_dormant n = eq_state n.lifecycle_state dormant && n.structurally_valid

  unfoldable pub revive_dormant : ℕ → Nodes → ℕ × Nodes
  revive_dormant now nodes =
      (count_if is_revivable_dormant nodes, update_where is_revivable_dormant (revived now) nodes)

  abbrev pub is_revivable : String → Node f → Bool
  is_revivable id n =
      has_id f id n
      && (eq_state n.lifecycle_state dormant
          || eq_state n.lifecycle_state probation
          || eq_state n.lifecycle_state candidate)
      && n.structurally_valid

  abbrev pub revived_node : ℕ → Node f → Node f
  revived_node now n = record n {
    lifecycle_state = probation;
    status = probation;
    next_test_at = some now;
    test_lease_until = none;
    testing_from_state = none;
    updated_at = now;
  }

  -- The statement commits before the count of rows is looked at.
  unfoldable pub revive_node : ℕ → String → Nodes → Result String (Unit {0}) × Nodes
  revive_node now id nodes = (
    ensure (count_if (is_revivable id) nodes == 1) "node not found or cannot be revived",
    update_where (is_revivable id) (revived_node now) nodes,
  )

  abbrev pub is_idle : String → Node f → Bool
  is_idle id n = has_id f id n && not (eq_state n.lifecycle_state testing)

  abbrev pub due_now : ℕ → Node f → Node f
  due_now now n = record n { next_test_at = some now; updated_at = now }

  unfoldable pub schedule_manual_test : ℕ → String → Nodes → Result String (Unit {0}) × Nodes
  schedule_manual_test now id nodes =
      let nodes' = update_where (is_idle id) (due_now now) nodes in
      (
        if count_if (is_idle id) nodes == 0
            then ensure (count_if (has_id f id) nodes' == 1) "node not found"
            else ok tt,
        nodes',
      )

  abbrev pub is_buried : ℕ → Node f → Bool
  is_buried now n = eq_state n.lifecycle_state retired && expired now n.tombstone_until

  unfoldable pub cleanup_retired : ℕ → Nodes → ℕ × Nodes
  cleanup_retired now nodes =
      (count_if (is_buried now) nodes, filter (λ n. not (is_buried now n)) nodes)
