-- ===== src/Store/Upstream/Publish.antt =====
-- `publication_snapshot` of src/src/storage/mod.rs.
pub mod Exact
use Prim.Native.String.{compare}
use Prim.Native.Nat.{Ordering}
use proxy_fleet.Common.{
  ℕ, String, Bool, true, false, not, ◌&&◌, ◌||◌, List, map, filter, sort_by, unwrap_or,
}
use proxy_fleet.Common.Float.{Float}
use proxy_fleet.Domain.Lifecycle.{retired, invalid, eq_state}
use proxy_fleet.Store.Schema.{Node}
use proxy_fleet.Store.Upstream.{complete, RefreshRun, max_generation}
use proxy_fleet.Store.Upstream.Refresh.{unleased}

pub record PublicationSnapshot : Type 0 where
  pub generation : ℕ
  pub raw_configs : List String

module _ (f : Float) where
  open f use {lt}

  -- `ORDER BY health_score DESC, config_hash ASC`
  abbrev pub ranks_before : Node f → Node f → Bool
  ranks_before a b =
      lt b.health_score a.health_score
      || (not (lt a.health_score b.health_score)
          && elim (compare a.config_hash b.config_hash) [ Ordering.lt ↦ true | _ ↦ false ])

  unfoldable pub is_published : ℕ → Node f → Bool
  is_published now n =
      n.structurally_valid
      && not (unleased f now n)
      && not (eq_state n.lifecycle_state invalid || eq_state n.lifecycle_state retired)

  abbrev is_done : RefreshRun → Bool
  is_done r = elim r.status [ complete ↦ true | _ ↦ false ]

  unfoldable pub publication_snapshot : ℕ → List (Node f) → List RefreshRun → PublicationSnapshot
  unfolding is_published max_generation
  publication_snapshot now nodes runs = record {
    generation =
        unwrap_or (max_generation (map (λ (r : RefreshRun). r.generation) (filter is_done runs))) 0;
    raw_configs =
        map (λ (n : Node f). n.raw_config) (sort_by ranks_before (filter (is_published now) nodes));
  }
