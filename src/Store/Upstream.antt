-- ===== src/Store/Upstream.antt =====
-- The statements of src/src/storage/mod.rs about upstream refreshes: ingestion, generations, the
-- retirement of proxies that went missing, and the snapshot that is published. The `exit_…`
-- columns, which are NOT NULL, are `none` where they have their defaults.
pub mod Refresh
pub mod Publish
pub mod Kept
pub mod Retire
use Prim.Native.Char.{code}
use Prim.Native.String
use Prim.Native.String.{compare}
use Prim.Native.Nat.{Ordering}
use mathlib.Core.Option
use proxy_fleet.Common.{
  ℕ, String, Bool, true, false, not, ◌&&◌, ◌||◌, Option, none, some, List, [], ◌∷◌, ◌++◌, map,
  foldl, filter, any, length, update_where, count_if, find, sort_by, ltb, leb, ◌==◌, ◌+◌, ◌-◌, max,
  if◌then◌else◌, str_eq, unwrap_or,
}
use proxy_fleet.Common.Float.{Float}
use proxy_fleet.Domain.Lifecycle.{
  LifecycleState, candidate, testing, active, probation, dormant, retired, invalid,
  waiting_for_port, eq_state,
}
use proxy_fleet.Domain.Evidence.{hours}
use proxy_fleet.Parser.{ParsedProxy}
use proxy_fleet.Store.Schema.{Node, has_id, has_hash}

-- A row of `upstream_generation_members`; generation, source and hash are its key.
pub record Member : Type 0 where
  pub generation : ℕ
  pub source_name : String
  pub config_hash : String
  pub seen_at : ℕ

pub data RefreshStatus : Type 0 where
  running complete partial : RefreshStatus

-- A row of `upstream_refresh_runs`.
pub record RefreshRun : Type 0 where
  pub id : String
  pub generation : ℕ
  pub started_at : ℕ
  pub finished_at : Option ℕ
  pub status : RefreshStatus
  pub source_count : ℕ
  pub successful_source_count : ℕ
  pub parsed_count : ℕ

-- `INSERT OR IGNORE`
abbrev same_key : Member → Member → Bool
same_key a b =
    a.generation == b.generation
    && str_eq a.source_name b.source_name
    && str_eq a.config_hash b.config_hash

unfoldable pub add_member : Member → List Member → List Member
add_member m members = if any (same_key m) members then members else members ++ m ∷ []

-- `BTreeSet::insert` on a sorted list
unfoldable pub btree_insert : String → List String → List String
btree_insert x [] = x ∷ []
btree_insert x (y ∷ ys) =
    let rest = btree_insert x ys in
    elim (compare x y) [ Ordering.lt ↦ x ∷ y ∷ ys | Ordering.eq ↦ y ∷ ys | Ordering.gt ↦ y ∷ rest ]

-- `BTreeSet` from a list
unfoldable pub btree_set : List String → List String
unfolding btree_insert
btree_set [] = []
btree_set (x ∷ xs) = btree_insert x (btree_set xs)

unfoldable pub max_generation : List ℕ → Option ℕ
max_generation [] = none
max_generation (g ∷ gs) = some (max g (unwrap_or (max_generation gs) g))

module _ (f : Float) where
  open f use {lt, of_ℕ, ratio}

  unfoldable pub refreshed : ℕ → ℕ → ParsedProxy → Node f → Node f
  unfolding btree_insert btree_set
  refreshed now generation proxy n =
      let back = eq_state n.lifecycle_state retired in
      record n {
        raw_config = proxy.raw_config;
        normalized_config = proxy.normalized_config;
        source_subs = btree_insert proxy.source (btree_set n.source_subs);
        last_seen_generation = some generation;
        upstream_missing_generations = 0;
        lifecycle_state = if back then candidate else n.lifecycle_state;
        status = if back then candidate else n.status;
        retired_at = if back then none else n.retired_at;
        tombstone_until = if back then none else n.tombstone_until;
        next_test_at = if back then some now else n.next_test_at;
        updated_at = now;
      }

  -- The row of `INSERT INTO nodes`: the columns that it names, and the defaults of the others.
  unfoldable pub inserted : ℕ → ℕ → String → ParsedProxy → Node f
  inserted now generation id proxy = record {
    id = id;
    config_hash = proxy.config_hash;
    raw_config = proxy.raw_config;
    normalized_config = proxy.normalized_config;
    source_subs = proxy.source ∷ [];
    status = candidate;
    lifecycle_state = candidate;
    structurally_valid = true;
    state_entered_at = none;
    testing_from_state = none;
    waiting_from_state = none;
    test_lease_until = none;
    main_port = none;
    relay_delay_ms = none;
    download_kbps = none;
    health_alpha = of_ℕ 1;
    health_beta = of_ℕ 1;
    health_score = ratio 5 10;
    evidence_updated_at = none;
    publication_lease_until = none;
    publication_lease_kind = none;
    activated_at = none;
    last_success_at = none;
    last_real_download_at = none;
    last_failure_at = none;
    last_failure_class = none;
    last_failure_run_id = none;
    success_streak = 0;
    failure_streak = 0;
    independent_failure_count = 0;
    last_test_endpoint = none;
    last_test_at = none;
    next_test_at = some now;
    exit_info = none;
    exit_info_fetched_at = none;
    metadata_lease_until = none;
    last_seen_generation = some generation;
    upstream_missing_generations = 0;
    retired_at = none;
    tombstone_until = none;
    created_at = now;
    updated_at = now;
  }

  -- The tables, and the count of new rows.
  pub record Ingested : Type 0 where
    pub nodes : List (Node f)
    pub members : List Member
    pub count : ℕ

  abbrev membership : ℕ → ℕ → ParsedProxy → Member
  membership now generation proxy = record {
    generation = generation;
    source_name = proxy.source;
    config_hash = proxy.config_hash;
    seen_at = now;
  }

  -- The branches on the row that already has the hash.
  unfoldable pub ingest_found : ℕ → ℕ → Ingested → ParsedProxy × String → Option (Node f) → Ingested
  unfolding refreshed inserted add_member
  ingest_found now generation s (proxy, id) none = record {
    nodes = s.nodes ++ inserted now generation id proxy ∷ [];
    members = add_member (membership now generation proxy) s.members;
    count = s.count + 1;
  }
  ingest_found now generation s (proxy, id) (some row) = record {
    nodes = update_where (has_id f row.id) (refreshed now generation proxy) s.nodes;
    members = add_member (membership now generation proxy) s.members;
    count = s.count;
  }

  -- One round of the loop; the text is the id that `Uuid::new_v4` would draw.
  unfoldable pub ingest_one : ℕ → ℕ → Ingested → ParsedProxy × String → Ingested
  ingest_one now generation s p =
      ingest_found now generation s p (find (has_hash f p.0.config_hash) s.nodes)

  unfoldable pub ingest_many : ℕ → ℕ → List (ParsedProxy × String) → Ingested → Ingested
  ingest_many now generation [] s = s
  ingest_many now generation (p ∷ ps) s =
      ingest_many now generation ps (ingest_one now generation s p)

  unfoldable pub begin_refresh : ℕ → String → ℕ → List RefreshRun → ℕ × List RefreshRun
  unfolding max_generation
  begin_refresh now id source_count runs =
      let generation =
        unwrap_or (max_generation (map (λ (r : RefreshRun). r.generation) runs)) 0 + 1 in
      (
        generation,
        runs
            ++ record {
              id = id;
              generation = generation;
              started_at = now;
              finished_at = none;
              status = running;
              source_count = source_count;
              successful_source_count = 0;
              parsed_count = 0;
            }
              ∷ [],
      )
