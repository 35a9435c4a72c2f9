-- ===== src/Store/Upstream/Refresh.antt =====
-- `finish_refresh` and `copy_cached_source_generation` of src/src/storage/mod.rs.
use Prim.Native.Char.{code}
use proxy_fleet.Common.{
  ℕ, String, Bool, true, false, not, ◌&&◌, ◌||◌, Option, none, some, List, [], ◌∷◌, map, filter,
  any, length, update_where, ltb, leb, ◌==◌, ◌+◌, ◌-◌, ◌*◌, if◌then◌else◌, str_eq,
}
use proxy_fleet.Common.Float.{Float}
use proxy_fleet.Domain.Lifecycle.{retired, invalid, eq_state}
use proxy_fleet.Domain.Evidence.{hours}
use proxy_fleet.Store.Schema.{Node}
use proxy_fleet.Store.Upstream.{Member, complete, partial, RefreshRun, add_member, max_generation}

module _ (f : Float) where
  -- `source_subs NOT LIKE '%manual%'`: LIKE ignores the case of ASCII letters.
  abbrev lower_code : ℕ → ℕ
  lower_code c = if leb 65 c && leb c 90 then c + 32 else c

  abbrev starts_with : String → String → Bool
  starts_with String.[] s = true
  starts_with (String.◌∷◌ c p) String.[] = false
  starts_with (String.◌∷◌ c p) (String.◌∷◌ d s) =
      lower_code (code c) == lower_code (code d) && starts_with p s

  abbrev like : String → String → Bool
  like p String.[] = starts_with p String.[]
  like p (String.◌∷◌ c s) = starts_with p (String.◌∷◌ c s) || like p s

  unfoldable pub is_manual : Node f → Bool
  is_manual n = any (like "manual") n.source_subs

  abbrev seen_in : ℕ → Node f → Bool
  seen_in generation n = elim n.last_seen_generation [ none ↦ false | some g ↦ g == generation ]

  unfoldable pub is_missing : ℕ → Node f → Bool
  unfolding is_manual
  is_missing generation n = not (seen_in generation n) && not (is_manual n)

  unfoldable pub missed : Node f → Node f
  missed n = record n { upstream_missing_generations = n.upstream_missing_generations + 1 }

  -- `publication_lease_until IS NULL OR publication_lease_until <= now`
  abbrev pub unleased : ℕ → Node f → Bool
  unleased now n = elim n.publication_lease_until [ none ↦ true | some t ↦ leb t now ]

  unfoldable pub is_gone : ℕ → ℕ → Node f → Bool
  is_gone now minimum n =
      not (eq_state n.lifecycle_state invalid || eq_state n.lifecycle_state retired)
      && leb minimum n.upstream_missing_generations
      && leb (n.created_at + hours 12) now
      && unleased now n

  unfoldable pub buried : ℕ → Node f → Node f
  buried now n = record n {
    lifecycle_state = retired;
    status = retired;
    retired_at = some now;
    tombstone_until = some (now + hours (30 * 24));
  }

  -- What the two updates of a complete refresh do.
  unfoldable pub reconcile : ℕ → ℕ → ℕ → List (Node f) → List (Node f)
  unfolding is_missing missed is_gone buried
  reconcile now generation minimum nodes =
      update_where (is_gone now minimum) (buried now)
        (update_where (is_missing generation) missed nodes)

  abbrev finished : ℕ → Bool → ℕ → ℕ → RefreshRun → RefreshRun
  finished now done successful parsed r = record r {
    finished_at = some now;
    status = if done then complete else partial;
    successful_source_count = successful;
    parsed_count = parsed;
  }

  -- The counts of a refresh, as the caller passes them.
  pub record Outcome : Type 0 where
    pub id : String
    pub generation : ℕ
    pub source_count : ℕ
    pub successful_sources : ℕ
    pub parsed_count : ℕ

  abbrev pub is_complete : Outcome → Bool
  is_complete o = ltb 0 o.source_count && o.successful_sources == o.source_count

  unfoldable pub finish_refresh :
      ℕ → ℕ → Outcome → List (Node f) × List RefreshRun → Bool × (List (Node f) × List RefreshRun)
  unfolding reconcile
  finish_refresh now minimum o (nodes, runs) =
      let runs' =
        update_where (λ (r : RefreshRun). str_eq r.id o.id)
          (finished now (is_complete o) o.successful_sources o.parsed_count) runs in
      (
        is_complete o,
        ((if is_complete o then reconcile now o.generation minimum nodes else nodes), runs'),
      )

  abbrev member_of : ℕ → String → Member → Bool
  member_of generation source m = m.generation == generation && str_eq m.source_name source

  abbrev add_all : List Member → List Member → List Member
  add_all [] members = members
  add_all (m ∷ ms) members = add_all ms (add_member m members)

  abbrev pub confirmed : ℕ → ℕ → Node f → Node f
  confirmed now generation n = record n {
    last_seen_generation = some generation;
    upstream_missing_generations = 0;
    updated_at = now;
  }

  abbrev recopied : ℕ → ℕ → Member → Member
  recopied now generation m = record m { generation = generation; seen_at = now }

  -- A node whose hash a member of the generation and the source has.
  unfoldable pub is_copied : ℕ → String → List Member → Node f → Bool
  is_copied generation source members n =
      any (λ m. member_of generation source m && str_eq m.config_hash n.config_hash) members

  -- The branches on the last generation that has members of the source.
  unfoldable pub copy_from :
      ℕ → String → ℕ → List (Node f) × List Member → Option ℕ → ℕ × (List (Node f) × List Member)
  unfolding add_member is_copied
  copy_from now source generation (nodes, members) none = (0, (nodes, members))
  copy_from now source generation (nodes, members) (some previous) =
      let members' =
        add_all (map (recopied now generation) (filter (member_of previous source) members))
          members in
      (
        length members' - length members,
        (
          update_where (is_copied generation source members') (confirmed now generation) nodes,
          members',
        ),
      )

  unfoldable pub copy_cached_source_generation :
      ℕ → String → ℕ → List (Node f) × List Member → ℕ × (List (Node f) × List Member)
  unfolding max_generation copy_from
  copy_cached_source_generation now source generation (nodes, members) =
      copy_from now source generation (nodes, members)
        (max_generation (
          map (λ (m : Member). m.generation)
            (filter (λ m. str_eq m.source_name source && ltb m.generation generation) members)))
