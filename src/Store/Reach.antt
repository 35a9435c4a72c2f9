-- ===== src/Store/Reach.antt =====
-- The statements that write `nodes` once the schema is migrated, as a step relation, and what their
-- sequences keep.
use proxy_fleet.Common.{
  arith, Bool, ℕ, String, ◌≡◌, ◌<◌, some, List, find, none, ok, ok-injective, sym, ◌∙◌,
  Option-cases, inl, inr,
}
use mathlib.Core.Path.{subst}
use proxy_fleet.Store.Events.Invariant.{apply_test_event-IsFleet}
use proxy_fleet.Common.Float.{Float}
use proxy_fleet.Parser.{ParsedProxy}
use proxy_fleet.Store.Schema.{Node, Fleet, ExitMetadata, has_id}
use proxy_fleet.Store.Invariant.{IsFleet}
use proxy_fleet.Store.Events.{
  TestEventInput, TestEventApplied, Intervals, apply_found, apply_test_event,
}
use proxy_fleet.Store.Upkeep.{
  seed_legacy_download_leases, release_test_lease, mark_waiting_for_port, set_main_port,
  clear_main_port, clear_stale_runtime_ports, claim_metadata_refresh, record_exit_metadata,
  release_metadata_lease, revive_dormant, revive_node, schedule_manual_test, cleanup_retired,
}
use proxy_fleet.Store.Upkeep.Kept.{
  seed-IsFleet, release_test_lease-IsFleet, mark_waiting_for_port-IsFleet, set_port-IsFleet,
  metadata_lease-IsFleet, with_metadata-IsFleet, due_now-IsFleet, revive_dormant-IsFleet,
  revive_node-IsFleet, cleanup_retired-IsFleet,
}
use proxy_fleet.Store.Upstream.{Member, RefreshRun, Ingested, ingest_many}
use proxy_fleet.Store.Upstream.Refresh.{Outcome, finish_refresh, copy_cached_source_generation}
use proxy_fleet.Store.Upstream.Kept.{
  IsFresh, ingest_many-IsFleet, finish_refresh-IsFleet, copy_cached-IsFleet,
}
use proxy_fleet.Scheduler.Claim.{ClaimParams, claim_row}
use proxy_fleet.Scheduler.Claim.Sound.{Lawful, claim_row-IsFleet}

module _ (f : Float) where
  abbrev Nodes : Type 0
  Nodes = List (Node f)

  -- One transaction, or one statement outside of one. A tick is a step for each row that it puts
  -- under test, so other statements come in between; every tick has the same lease. A step of a tick
  -- finds its row claimable: valid, and in a queue or waiting for a port with a queue to go back to.
  -- The ids that `Uuid::new_v4` draws are fresh.
  pub data Step (lease : ℕ) : Nodes → Nodes → Type 0 where
    ingest :
        (now generation : ℕ) (ps : List (ParsedProxy × String)) (s : Ingested f)
        → IsFresh f ps s.nodes
        → Step lease s.nodes (ingest_many f now generation ps s).nodes
    finish :
        (now minimum : ℕ) (o : Outcome f) (db : Nodes × List RefreshRun)
        → Step lease db.0 (finish_refresh f now minimum o db).1.0
    copy :
        (now : ℕ) (source : String) (generation : ℕ) (db : Nodes × List Member)
        → Step lease db.0 (copy_cached_source_generation f now source generation db).1.0
    claim :
        (p : ClaimParams f) (key : String) (nodes : Nodes)
        → p.lease ≡ lease
        → Lawful f p nodes key
        → Step lease nodes (claim_row f p key nodes)
    test_event :
        (draw : ℕ → ℕ) (now : ℕ) (intervals : Intervals f) (event : TestEventInput f)
        (answer : TestEventApplied f) (db db' : Fleet f)
        → apply_test_event f draw now intervals event db ≡ ok (answer, db')
        → Step lease db.nodes db'.nodes
    seed :
        (now span : ℕ) (seeded : Bool) (nodes : Nodes)
        → Step lease nodes (seed_legacy_download_leases f now span seeded nodes).1.0
    release :
        (now : ℕ) (id : String) (nodes : Nodes)
        → Step lease nodes (release_test_lease f now id nodes)
    wait :
        (now retry : ℕ) (id : String) (nodes : Nodes)
        → Step lease nodes (mark_waiting_for_port f now retry id nodes)
    set_port :
        (now : ℕ) (id : String) (port : ℕ) (nodes : Nodes)
        → Step lease nodes (set_main_port f now id port nodes)
    clear_port :
        (now : ℕ) (id : String) (nodes : Nodes) → Step lease nodes (clear_main_port f now id nodes)
    clear_ports :
        (now : ℕ) (nodes : Nodes) → Step lease nodes (clear_stale_runtime_ports f now nodes).1
    claim_metadata :
        (now : ℕ) (id : String) (ttl span : ℕ) (nodes : Nodes)
        → Step lease nodes (claim_metadata_refresh f now id ttl span nodes).1
    record_metadata :
        (now : ℕ) (id : String) (metadata : ExitMetadata) (nodes : Nodes)
        → Step lease nodes (record_exit_metadata f now id metadata nodes)
    release_metadata :
        (id : String) (nodes : Nodes) → Step lease nodes (release_metadata_lease f id nodes)
    revive_all : (now : ℕ) (nodes : Nodes) → Step lease nodes (revive_dormant f now nodes).1
    revive_one :
        (now : ℕ) (id : String) (nodes : Nodes) → Step lease nodes (revive_node f now id nodes).1
    manual_test :
        (now : ℕ) (id : String) (nodes : Nodes)
        → Step lease nodes (schedule_manual_test f now id nodes).1
    cleanup : (now : ℕ) (nodes : Nodes) → Step lease nodes (cleanup_retired f now nodes).1

  pub data Reaches (lease : ℕ) : Nodes → Nodes → Type 0 where
    stay : (nodes : Nodes) → Reaches lease nodes nodes
    then : {a b c : Nodes} → Step lease a b → Reaches lease b c → Reaches lease a c

  unknown_is_error :
      (draw : ℕ → ℕ) (now : ℕ) (intervals : Intervals f) (event : TestEventInput f) (db : Fleet f)
      {r : TestEventApplied f × Fleet f}
      → find (has_id f event.proxy_id) db.nodes ≡ none
      → ¬ (apply_test_event f draw now intervals event db ≡ ok r)
  unfolding apply_test_event apply_found
  unknown_is_error draw now intervals event db unknown e = absurd (cc (rw unknown at e))

  test_event-IsFleet :
      (draw : ℕ → ℕ) (now : ℕ) (intervals : Intervals f) (event : TestEventInput f)
      (answer : TestEventApplied f) (db db' : Fleet f)
      → apply_test_event f draw now intervals event db ≡ ok (answer, db')
      → IsFleet f db.nodes
      → IsFleet f db'.nodes
  test_event-IsFleet draw now intervals event answer db db' e h =
      elim (Option-cases (find (has_id f event.proxy_id) db.nodes)) [
        | inl unknown ↦ absurd (unknown_is_error draw now intervals event db unknown e)
        | inr (row, known) ↦
            let (answer', db'', e', _, h') =
              apply_test_event-IsFleet f draw now intervals event db row known h in
            subst (λ (r : TestEventApplied f × Fleet f). IsFleet f r.1.nodes)
              (ok-injective (sym e' ∙ e)) h'
      ]

  Step-IsFleet : {lease : ℕ} {a b : Nodes} → 0 < lease → Step lease a b → IsFleet f a → IsFleet f b
  unfolding set_main_port clear_main_port clear_stale_runtime_ports claim_metadata_refresh
      record_exit_metadata release_metadata_lease schedule_manual_test
  Step-IsFleet positive (ingest now generation ps s fresh) h =
      ingest_many-IsFleet f now generation ps s fresh h
  Step-IsFleet positive (finish now minimum o db) h = finish_refresh-IsFleet f now minimum o db h
  Step-IsFleet positive (copy now source generation db) h =
      copy_cached-IsFleet f now source generation db h
  Step-IsFleet positive (claim p key nodes same lawful) h =
      claim_row-IsFleet f p (omega (arith, same)) key nodes lawful h
  Step-IsFleet positive (seed now span seeded nodes) h = seed-IsFleet f now span seeded nodes h
  Step-IsFleet positive (test_event draw now intervals event answer db db' e) h =
      test_event-IsFleet draw now intervals event answer db db' e h
  Step-IsFleet positive (release now id nodes) h = release_test_lease-IsFleet f now id nodes h
  Step-IsFleet positive (wait now retry id nodes) h =
      mark_waiting_for_port-IsFleet f now retry id nodes h
  Step-IsFleet positive (set_port now id port nodes) h =
      set_port-IsFleet f now (some port) _ nodes h
  Step-IsFleet positive (clear_port now id nodes) h = set_port-IsFleet f now none _ nodes h
  Step-IsFleet positive (clear_ports now nodes) h = set_port-IsFleet f now none _ nodes h
  Step-IsFleet positive (claim_metadata now id ttl lease nodes) h =
      metadata_lease-IsFleet f _ _ nodes h
  Step-IsFleet positive (record_metadata now id metadata nodes) h =
      with_metadata-IsFleet f now metadata _ nodes h
  Step-IsFleet positive (release_metadata id nodes) h = metadata_lease-IsFleet f none _ nodes h
  Step-IsFleet positive (revive_all now nodes) h = revive_dormant-IsFleet f now nodes h
  Step-IsFleet positive (revive_one now id nodes) h = revive_node-IsFleet f now id nodes h
  Step-IsFleet positive (manual_test now id nodes) h = due_now-IsFleet f now _ nodes h
  Step-IsFleet positive (cleanup now nodes) h = cleanup_retired-IsFleet f now nodes h

  -- Whatever statements run, and in whatever order, a well-formed table of nodes stays well-formed,
  -- as long as the lease of the ticks is positive and each row that a tick puts under test is, when
  -- it does, still valid, and in a queue or waiting for a port with a queue to go back to.
  pub Reaches-IsFleet :
      {lease : ℕ} {a b : Nodes} → 0 < lease → Reaches lease a b → IsFleet f a → IsFleet f b
  Reaches-IsFleet positive (stay nodes) h = h
  Reaches-IsFleet positive (then s r) h = Reaches-IsFleet positive r (Step-IsFleet positive s h)
