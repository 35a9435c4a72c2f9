-- ===== src/Store/Upkeep/Kept.antt =====
-- The statements that change single rows, and the well-formedness of the table of nodes.
use proxy_fleet.Common.{
  ℕ, String, Bool, true, false, ◌≡◌, refl, sym, ◌∙◌, ◌&&◌, Bool-cases, inl, inr, Option, none, some,
  List, filter, update_where, arith, All-map, All-filter, All-update_where, Distinct-update_where,
  Distinct-filter,
}
use proxy_fleet.Common.Float.{Float}
use proxy_fleet.Domain.Lifecycle.{LifecycleState, testing, invalid, eq_state}
use proxy_fleet.Store.Schema.{Node, ExitMetadata, has_id}
use proxy_fleet.Store.Invariant.{is_queue, from_queue, IsSound, IsFleet, id_of, hash_of}
use proxy_fleet.Store.Upkeep.{
  Nodes, released, is_under_test, release_test_lease, waiting, is_valid_id, mark_waiting_for_port,
  with_port, with_legacy_lease, seed_legacy_download_leases, with_metadata_lease, with_metadata,
  revived, is_revivable_dormant, revive_dormant, is_revivable, revived_node, revive_node, due_now,
  cleanup_retired,
}

only_testing : (s : LifecycleState) (b : Bool) → b && eq_state s testing ≡ true → s ≡ testing
only_testing s b e = ground arith

from_queue-some :
    (o : Option LifecycleState)
    → from_queue o ≡ true
    → (q : LifecycleState) × (o ≡ some q) × (is_queue q ≡ true)
from_queue-some none e = absurd (cc e)
from_queue-some (some q) e = (q, refl, e)

queue_not_testing : (q : LifecycleState) → is_queue q ≡ true → eq_state q testing ≡ false
queue_not_testing q e = ground arith

queue_not_invalid : (q : LifecycleState) → is_queue q ≡ true → eq_state q invalid ≡ false
queue_not_invalid q e = ground arith

module _ (f : Float) where
  -- An update that leaves the two keys alone, and the rows that it concerns sound.
  pub update_where-IsFleet :
      (test : Node f → Bool) (set : Node f → Node f) (nodes : List (Node f))
      → ((n : Node f) → (set n).id ≡ n.id)
      → ((n : Node f) → (set n).config_hash ≡ n.config_hash)
      → ((n : Node f) → test n ≡ true → IsSound f n → IsSound f (set n))
      → IsFleet f nodes
      → IsFleet f (update_where test set nodes)
  update_where-IsFleet test set nodes same_id same_hash keep h = record {
    sound = All-update_where (IsSound f) test set keep nodes h.sound;
    ids = Distinct-update_where (id_of f) test set nodes same_id h.ids;
    hashes = Distinct-update_where (hash_of f) test set nodes same_hash h.hashes;
  }

  pub filter-IsFleet :
      (test : Node f → Bool) (nodes : List (Node f))
      → IsFleet f nodes
      → IsFleet f (filter test nodes)
  filter-IsFleet test nodes h = record {
    sound = All-filter (IsSound f) test nodes (All-map _ nodes (λ n s _. s) h.sound);
    ids = Distinct-filter (id_of f) test nodes h.ids;
    hashes = Distinct-filter (hash_of f) test nodes h.hashes;
  }

  -- A row with the same state columns is as sound.
  pub same_state :
      (n m : Node f)
      → m.status ≡ n.status
      → m.lifecycle_state ≡ n.lifecycle_state
      → m.structurally_valid ≡ n.structurally_valid
      → m.testing_from_state ≡ n.testing_from_state
      → IsSound f n
      → IsSound f m
  same_state n m status state valid origin s = record {
    status_agrees = cc (status, state, s.status_agrees);
    invalid_iff = (
      λ e. state ∙ s.invalid_iff.0 (sym valid ∙ e),
      λ e. valid ∙ s.invalid_iff.1 (sym state ∙ e),
    );
    testing_origin = λ e. rw origin (s.testing_origin (sym state ∙ e));
  }

  -- A valid row in a state that is neither TESTING nor INVALID is sound.
  pub settled :
      (n : Node f)
      → n.status ≡ n.lifecycle_state
      → n.structurally_valid ≡ true
      → eq_state n.lifecycle_state testing ≡ false
      → eq_state n.lifecycle_state invalid ≡ false
      → IsSound f n
  settled n status valid idle lawful = record {
    status_agrees = status;
    invalid_iff = (λ e. absurd (cc (e, valid)), λ e. absurd (cc (rw e at lawful)));
    testing_origin = λ e. absurd (cc (rw e at idle));
  }

  is_testing :
      (id : String) (n : Node f) → is_under_test f id n ≡ true → n.lifecycle_state ≡ testing
  is_testing id n e = only_testing n.lifecycle_state (has_id f id n) e

  testing-valid :
      (n : Node f) → IsSound f n → n.lifecycle_state ≡ testing → n.structurally_valid ≡ true
  testing-valid n s e = elim (Bool-cases n.structurally_valid) [
    | inl valid ↦ valid
    | inr broken ↦ absurd (cc (e, s.invalid_iff.0 broken))
  ]

  released-IsSound :
      (now : ℕ) (id : String) (n : Node f)
      → is_under_test f id n ≡ true
      → IsSound f n
      → IsSound f (released f now n)
  released-IsSound now id n e s =
      let under_test = is_testing id n e in
      let (q, origin, queued) =
        from_queue-some n.testing_from_state (s.testing_origin under_test) in
      settled (released f now n) (rw origin refl) (testing-valid n s under_test)
        (rw origin (queue_not_testing q queued)) (rw origin (queue_not_invalid q queued))

  revive_dormant-valid :
      (n : Node f) → is_revivable_dormant f n ≡ true → n.structurally_valid ≡ true
  revive_dormant-valid n e = ground arith

  is_valid_id-valid :
      (id : String) (n : Node f) → is_valid_id f id n ≡ true → n.structurally_valid ≡ true
  is_valid_id-valid id n e = ground arith

  is_revivable-valid :
      (id : String) (n : Node f) → is_revivable f id n ≡ true → n.structurally_valid ≡ true
  is_revivable-valid id n e = ground arith

  pub release_test_lease-IsFleet :
      (now : ℕ) (id : String) (nodes : Nodes f)
      → IsFleet f nodes
      → IsFleet f (release_test_lease f now id nodes)
  unfolding release_test_lease
  release_test_lease-IsFleet now id nodes =
      update_where-IsFleet _ _ nodes (λ n. refl) (λ n. refl) (released-IsSound now id)

  pub mark_waiting_for_port-IsFleet :
      (now retry : ℕ) (id : String) (nodes : Nodes f)
      → IsFleet f nodes
      → IsFleet f (mark_waiting_for_port f now retry id nodes)
  unfolding mark_waiting_for_port
  mark_waiting_for_port-IsFleet now retry id nodes =
      update_where-IsFleet _ _ nodes (λ n. refl) (λ n. refl)
        (λ n e s. settled (waiting f now retry n) refl (is_valid_id-valid id n e) refl refl)

  pub set_port-IsFleet :
      (now : ℕ) (port : Option ℕ) (test : Node f → Bool) (nodes : Nodes f)
      → IsFleet f nodes
      → IsFleet f (update_where test (with_port f now port) nodes)
  set_port-IsFleet now port test nodes =
      update_where-IsFleet test _ nodes (λ n. refl) (λ n. refl)
        (λ n e s. same_state n (with_port f now port n) refl refl refl refl s)

  pub seed-IsFleet :
      (now span : ℕ) (seeded : Bool) (nodes : Nodes f)
      → IsFleet f nodes
      → IsFleet f (seed_legacy_download_leases f now span seeded nodes).1.0
  unfolding seed_legacy_download_leases
  seed-IsFleet now span true nodes h = h
  seed-IsFleet now span false nodes h =
      update_where-IsFleet _ _ nodes (λ n. refl) (λ n. refl)
        (λ n e s. same_state n (with_legacy_lease f now _ n) refl refl refl refl s) h

  pub metadata_lease-IsFleet :
      (lease : Option ℕ) (test : Node f → Bool) (nodes : Nodes f)
      → IsFleet f nodes
      → IsFleet f (update_where test (with_metadata_lease f lease) nodes)
  metadata_lease-IsFleet lease test nodes =
      update_where-IsFleet test _ nodes (λ n. refl) (λ n. refl)
        (λ n e s. same_state n (with_metadata_lease f lease n) refl refl refl refl s)

  pub with_metadata-IsFleet :
      (now : ℕ) (metadata : ExitMetadata) (test : Node f → Bool) (nodes : Nodes f)
      → IsFleet f nodes
      → IsFleet f (update_where test (with_metadata f now metadata) nodes)
  with_metadata-IsFleet now metadata test nodes =
      update_where-IsFleet test _ nodes (λ n. refl) (λ n. refl)
        (λ n e s. same_state n (with_metadata f now metadata n) refl refl refl refl s)

  pub due_now-IsFleet :
      (now : ℕ) (test : Node f → Bool) (nodes : Nodes f)
      → IsFleet f nodes
      → IsFleet f (update_where test (due_now f now) nodes)
  due_now-IsFleet now test nodes =
      update_where-IsFleet test _ nodes (λ n. refl) (λ n. refl)
        (λ n e s. same_state n (due_now f now n) refl refl refl refl s)

  pub revive_dormant-IsFleet :
      (now : ℕ) (nodes : Nodes f) → IsFleet f nodes → IsFleet f (revive_dormant f now nodes).1
  unfolding revive_dormant
  revive_dormant-IsFleet now nodes =
      update_where-IsFleet _ _ nodes (λ n. refl) (λ n. refl)
        (λ n e s. settled (revived f now n) refl (revive_dormant-valid n e) refl refl)

  pub revive_node-IsFleet :
      (now : ℕ) (id : String) (nodes : Nodes f)
      → IsFleet f nodes
      → IsFleet f (revive_node f now id nodes).1
  unfolding revive_node
  revive_node-IsFleet now id nodes =
      update_where-IsFleet _ _ nodes (λ n. refl) (λ n. refl)
        (λ n e s. settled (revived_node f now n) refl (is_revivable-valid id n e) refl refl)

  pub cleanup_retired-IsFleet :
      (now : ℕ) (nodes : Nodes f) → IsFleet f nodes → IsFleet f (cleanup_retired f now nodes).1
  unfolding cleanup_retired
  cleanup_retired-IsFleet now nodes = filter-IsFleet _ nodes
