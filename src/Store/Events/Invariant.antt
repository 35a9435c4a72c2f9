-- ===== src/Store/Events/Invariant.antt =====
-- What a probe outcome does to the tables.
use proxy_fleet.Common.{
  ℕ, none, any, find-update_self, true, false, some, ◌≡◌, ◌≢◌, ◌↔◌, ◌⊎◌, refl, ◌∷◌, find, arith,
  Bool-cases, inl, inr, All-find, All-update_found, Distinct-update_where, ok,
}
use proxy_fleet.Common.Float.{Float}
use proxy_fleet.Domain.Failure.{is_invalid_config}
use proxy_fleet.Domain.Lifecycle.{testing, invalid}
use proxy_fleet.Health.{HealthInput, decide}
use proxy_fleet.Store.Schema.{Node, Fleet, has_id}
use proxy_fleet.Store.Invariant.{IsSound, IsFleet, id_of, hash_of}
use proxy_fleet.Store.Events.{
  TestEventInput, TestEventApplied, Intervals, judged_state, health_input, write_decision,
  already_applied, same_observation, total_evidence, observation, apply_to, apply_test_event,
}

module _ (f : Float) where
  -- The state by which a sound row is judged.
  judged_ne_testing : (row : Node f) → IsSound f row → judged_state f row ≢ testing
  unfolding judged_state
  judged_ne_testing row h e = ground (arith, h.testing_origin)

  judged_invalid :
      (row : Node f)
      → IsSound f row
      → (judged_state f row ≡ invalid) ↔ (row.structurally_valid ≡ false)
  unfolding judged_state
  judged_invalid row h = ground (arith, h.testing_origin, h.invalid_iff.0, h.invalid_iff.1)

  -- A decision invalidates exactly on an invalid configuration or on an invalid node, and never
  -- puts a node under test.
  decide_invalid :
      (draw : ℕ → ℕ) (input : HealthInput f)
      → ((decide f draw input).lifecycle ≡ invalid)
        ↔ ((is_invalid_config input.class ≡ true) ⊎ (input.prior_lifecycle ≡ invalid))
  unfolding decide
  decide_invalid draw input = ground arith

  decide_ne_testing :
      (draw : ℕ → ℕ) (input : HealthInput f)
      → input.prior_lifecycle ≢ testing
      → (decide f draw input).lifecycle ≢ testing
  unfolding decide
  decide_ne_testing draw input h e = ground (arith, h)

  module _ (draw : ℕ → ℕ) (now : ℕ) (intervals : Intervals f) (event : TestEventInput f) where
    write_decision-IsSound :
        (evidence : f.F × f.F) (row : Node f)
        → IsSound f row
        → let decision = decide f draw (health_input f now intervals row evidence event) in
          IsSound f (write_decision f now evidence event (judged_state f row) decision row)
    unfolding write_decision health_input
    write_decision-IsSound evidence row h =
        let input = health_input f now intervals row evidence event in
        let inv = decide_invalid draw input in
        let judged = judged_invalid row h in
        record {
          status_agrees = refl;
          invalid_iff = ground (arith, inv.0, inv.1, judged.0, judged.1);
          testing_origin = λ e. absurd (decide_ne_testing draw input (judged_ne_testing row h) e);
        }

    apply_to-IsFleet :
        (db : Fleet f) (row : Node f)
        → find (has_id f event.proxy_id) db.nodes ≡ some row
        → IsFleet f db.nodes
        → IsFleet f (apply_to f draw now intervals event db row).1.nodes
    apply_to-IsFleet db row found h = elim (Bool-cases (already_applied f db event)) [
      | inl again ↦ unfold apply_to in rw again h
      | inr new ↦
          unfold apply_to in
          rw new (record {
            sound =
                All-update_found (id_of f) (IsSound f) event.proxy_id _ row db.nodes h.ids found
                  h.sound
                  (write_decision-IsSound
                    (total_evidence f now event.proxy_id (observation f now event ∷ db.events)) row
                    (All-find (IsSound f) (has_id f event.proxy_id) db.nodes h.sound found));
            ids =
                Distinct-update_where (id_of f) (has_id f event.proxy_id) _ db.nodes (λ n. refl)
                  h.ids;
            hashes =
                Distinct-update_where (hash_of f) (has_id f event.proxy_id) _ db.nodes (λ n. refl)
                  h.hashes;
          })
    ]

    -- The outcome is in the table of events, the answer's state is the decision on the evidence of that
    -- table, and the node is no longer under test and has the columns that the answer names.
    pub record IsRecorded (before : Node f) (db : Fleet f) (answer : TestEventApplied f)
        (db' : Fleet f) : Type 0 where
      pub first : any (same_observation f event) db.events ≡ false
      pub grown : db'.events ≡ observation f now event ∷ db.events
      pub decided :
          answer.lifecycle_state
          ≡ (decide f draw (
              health_input f now intervals before
                (total_evidence f now event.proxy_id db'.events)
                event)).lifecycle
      pub row : Node f
      pub found : find (has_id f event.proxy_id) db'.nodes ≡ some row
      pub freed : (row.test_lease_until ≡ none) × (row.testing_from_state ≡ none)
      pub columns :
          (row.lifecycle_state ≡ answer.lifecycle_state)
          × (row.health_score ≡ answer.health_score)
          × (row.publication_lease_until ≡ answer.publication_lease_until)
          × (row.next_test_at ≡ some answer.next_test_at)
          × (row.last_test_at ≡ some now)

    -- An earlier outcome of the same proxy, run and stage is stored, and nothing changes.
    abbrev pub IsRepeat : Fleet f → Fleet f → Type 0
    IsRepeat db db' = (any (same_observation f event) db.events ≡ true) × (db' ≡ db)

    apply_to-IsRecorded :
        (db : Fleet f) (row : Node f)
        → find (has_id f event.proxy_id) db.nodes ≡ some row
        → let r = apply_to f draw now intervals event db row in
          IsRepeat db r.1 ⊎ IsRecorded row db r.0 r.1
    apply_to-IsRecorded db row found = elim (Bool-cases (already_applied f db event)) [
      | inl again ↦ unfold apply_to in rw again (inl (unfold already_applied in again, refl))
      | inr new ↦
          let evidence =
            total_evidence f now event.proxy_id (observation f now event ∷ db.events) in
          unfold apply_to in
          rw new (
            inr (record {
              first = unfold already_applied in new;
              grown = refl;
              decided = refl;
              row =
                  write_decision f now evidence event (judged_state f row)
                    (decide f draw (health_input f now intervals row evidence event)) row;
              found =
                  find-update_self (id_of f) event.proxy_id _ row db.nodes
                    (λ n. unfold write_decision in refl) found;
              freed = unfold write_decision in (refl, refl);
              columns = unfold write_decision in (refl, refl, refl, refl, refl);
            }))
    ]

    pub apply_test_event-IsFleet :
        (db : Fleet f) (row : Node f)
        → find (has_id f event.proxy_id) db.nodes ≡ some row
        → IsFleet f db.nodes
        → (answer : TestEventApplied f) × (db' : Fleet f) × (apply_test_event f draw now intervals
              event db
            ≡ ok (answer, db'))
          × (IsRepeat db db' ⊎ IsRecorded row db answer db')
          × IsFleet f db'.nodes
    apply_test_event-IsFleet db row found h =
        let (answer, db') = apply_to f draw now intervals event db row in
        (
          answer,
          db',
          unfold apply_test_event in rw found refl,
          apply_to-IsRecorded db row found,
          apply_to-IsFleet db row found h,
        )
