-- ===== src/Store/Events/Idempotent.antt =====
-- Probe outcomes that are reported twice.
use proxy_fleet.Common.{
  ℕ, String, true, some, ◌≡◌, refl, List, [], ◌∷◌, find, any, Bool-cases, inl, inr, ok, str_eq,
  eq_iff, find-update_self, ap,
}
use mathlib.Core.Path.{subst}
use proxy_fleet.Common.Float.{Float}
use proxy_fleet.Domain.Evidence.{stage_str}
use proxy_fleet.Health.{decide}
use proxy_fleet.Store.Schema.{Node, TestEvent, Fleet, has_id}
use proxy_fleet.Store.Invariant.{id_of}
use proxy_fleet.Store.Events.{
  TestEventInput, TestEventApplied, Intervals, already_applied, same_observation, observation,
  apply_to, total_evidence, write_decision, judged_state, health_input, apply_test_event,
}

module _ (f : Float) where
  str_eq_refl : (s : String) → str_eq s s ≡ true
  str_eq_refl s = (eq_iff s s).1 refl

  -- Both calls report the same run and stage of the same proxy; all else may differ.
  pub record SameObservation (e e' : TestEventInput f) : Type 0 where
    pub same_proxy : e.proxy_id ≡ e'.proxy_id
    pub same_run : e.run_id ≡ e'.run_id
    pub same_stage : e.stage ≡ e'.stage

  recorded :
      (now : ℕ) (e e' : TestEventInput f) (events : List (TestEvent f))
      → SameObservation e e'
      → any (same_observation f e') (observation f now e ∷ events) ≡ true
  unfolding observation
  recorded now e e' events h =
      rw
        (
          h.same_proxy,
          h.same_run,
          h.same_stage,
          str_eq_refl e'.proxy_id,
          str_eq_refl e'.run_id,
          str_eq_refl (stage_str e'.stage),
        )
        refl

  any_same :
      (e e' : TestEventInput f) (events : List (TestEvent f))
      → SameObservation e e'
      → any (same_observation f e) events ≡ any (same_observation f e') events
  any_same e e' [] h = refl
  any_same e e' (x ∷ xs) h = rw (h.same_proxy, h.same_run, h.same_stage, any_same e e' xs h) refl

  apply_repeated :
      (draw : ℕ → ℕ) (now : ℕ) (intervals : Intervals f) (e : TestEventInput f) (db : Fleet f)
      (row : Node f)
      → already_applied f db e ≡ true
      → apply_to f draw now intervals e db row ≡ ((apply_to f draw now intervals e db row).0, db)
  unfolding apply_to
  apply_repeated draw now intervals e db row again = rw again refl

  answered :
      (draw : ℕ → ℕ) (now : ℕ) (intervals : Intervals f) (e : TestEventInput f) (db : Fleet f)
      (row : Node f)
      → find (has_id f e.proxy_id) db.nodes ≡ some row
      → already_applied f db e ≡ true
      → apply_test_event f draw now intervals e db
        ≡ ok ((apply_to f draw now intervals e db row).0, db)
  answered draw now intervals e db row found again =
      unfold apply_test_event in rw found (ap ok (apply_repeated draw now intervals e db row again))

  module _ (draw draw' : ℕ → ℕ) (now now' : ℕ) (intervals intervals' : Intervals f) where
    applied_after :
        (e e' : TestEventInput f) (db : Fleet f) (row : Node f)
        → SameObservation e e'
        → already_applied f (apply_to f draw now intervals e db row).1 e' ≡ true
    applied_after e e' db row h = elim (Bool-cases (already_applied f db e)) [
      | inl again ↦
          unfold apply_to already_applied in rw again (rw (any_same e e' db.events h) at again)
      | inr new ↦ unfold apply_to already_applied in rw new (recorded now e e' db.events h)
    ]

    still_there :
        (e : TestEventInput f) (db : Fleet f) (row : Node f)
        → find (has_id f e.proxy_id) db.nodes ≡ some row
        → (row' : Node f) × (find
              (has_id f e.proxy_id)
              (apply_to f draw now intervals e db row).1.nodes
            ≡ some row')
    still_there e db row found = elim (Bool-cases (already_applied f db e)) [
      | inl again ↦ (row, unfold apply_to in rw again found)
      | inr new ↦ (
        let evidence = total_evidence f now e.proxy_id (observation f now e ∷ db.events) in
            write_decision f now evidence e (judged_state f row)
              (decide f draw (health_input f now intervals row evidence e)) row,
        unfold apply_to in
            rw new (find-update_self (id_of f) e.proxy_id _ row db.nodes (λ n. refl) found),
      )
    ]

    -- After an outcome was applied, the same run and stage of the proxy, reported again at any
    -- time and with any values, is answered and leaves both tables as they are.
    pub repeat_is_noop :
        (e e' : TestEventInput f) (db : Fleet f) (row : Node f)
        → SameObservation e e'
        → find (has_id f e.proxy_id) db.nodes ≡ some row
        → (first second : TestEventApplied f) × (db' : Fleet f) × (apply_test_event f draw now
              intervals e db
            ≡ ok (first, db'))
          × (apply_test_event f draw' now' intervals' e' db' ≡ ok (second, db'))
    repeat_is_noop e e' db row h found =
        let (first, db') = apply_to f draw now intervals e db row in
        let (row', found') = still_there e db row found in
        (
          first,
          (apply_to f draw' now' intervals' e' db' row').0,
          db',
          unfold apply_test_event in rw found refl,
          answered draw' now' intervals' e' db' row'
              (subst (λ k. find (has_id f k) db'.nodes ≡ some row') h.same_proxy found')
              (applied_after e e' db row h),
        )
