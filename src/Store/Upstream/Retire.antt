-- ===== src/Store/Upstream/Retire.antt =====
-- Which proxies the end of a refresh retires.
use proxy_fleet.Common.{
  ℕ, ◌≢◌, ◌==◌, false, String, true, ◌≡◌, ◌≤◌, ◌+◌, ◌⊎◌, refl, sym, ◌∙◌, some, List, find,
  if◌then◌else◌, Bool-cases, inl, inr, arith, find-update_where,
}
use proxy_fleet.Common.Float.{Float}
use proxy_fleet.Domain.Lifecycle.{retired}
use proxy_fleet.Domain.Evidence.{hours}
use proxy_fleet.Store.Schema.{Node, has_id}
use proxy_fleet.Store.Invariant.{id_of}
use proxy_fleet.Store.Upstream.{RefreshRun}
use proxy_fleet.Store.Upstream.Refresh.{
  unleased, is_manual, is_missing, missed, is_gone, buried, reconcile, Outcome, is_complete,
  finish_refresh,
}

module _ (f : Float) where
  -- The row was not seen in the generation, and none of its sources is a manual one.
  abbrev pub IsUnseen : ℕ → Node f → Type 0
  IsUnseen generation n = (n.last_seen_generation ≢ some generation) × (is_manual f n ≡ false)

  is_missing-IsUnseen :
      (generation : ℕ) (n : Node f) → is_missing f generation n ≡ true → IsUnseen generation n
  unfolding is_missing
  is_missing-IsUnseen generation n h =
      let same : (generation == generation) ≡ true = ground arith in
      (λ e. absurd (cc (rw (e, same) at h)), ground arith)

  -- What a refresh must have seen for a row to be retired.
  pub record MayRetire (now minimum : ℕ) (o : Outcome f) (n : Node f) : Type 0 where
    pub complete_run : is_complete f o ≡ true
    pub old : n.created_at + hours 12 ≤ now
    pub lease_over : unleased f now n ≡ true
    pub missing :
        (minimum ≤ n.upstream_missing_generations)
        ⊎ (IsUnseen o.generation n × (minimum ≤ n.upstream_missing_generations + 1))

  -- What a refresh leaves of the row's count of missing generations.
  abbrev pub IsCounted : Outcome f → Node f → Node f → Type 0
  IsCounted o n m =
      (m.upstream_missing_generations ≡ n.upstream_missing_generations)
      ⊎ ((is_complete f o ≡ true)
          × IsUnseen o.generation n
          × (m.upstream_missing_generations ≡ n.upstream_missing_generations + 1))

  -- The row after the two updates.
  reconciled : ℕ → ℕ → ℕ → Node f → Node f
  reconciled now generation minimum n =
      let m = if is_missing f generation n then missed f n else n in
      if is_gone f now minimum m then buried f now m else m

  reconcile_row :
      (now generation minimum : ℕ) (k : String) (n : Node f) (nodes : List (Node f))
      → find (has_id f k) nodes ≡ some n
      → find (has_id f k) (reconcile f now generation minimum nodes)
        ≡ some (reconciled now generation minimum n)
  unfolding reconcile reconciled missed buried
  reconcile_row now generation minimum k n nodes found =
      find-update_where (id_of f) k (is_gone f now minimum) (buried f now)
        (if is_missing f generation n then missed f n else n) _ (λ x. refl)
        (find-update_where (id_of f) k (is_missing f generation) (missed f) n nodes (λ x. refl)
          found)

  is_gone-row :
      (now minimum : ℕ) (n : Node f)
      → is_gone f now minimum n ≡ true
      → (n.created_at + hours 12 ≤ now)
        × (unleased f now n ≡ true)
        × (minimum ≤ n.upstream_missing_generations)
  unfolding is_gone
  is_gone-row now minimum n e = ground arith

  missed_columns :
      (now generation : ℕ) (n : Node f)
      → let m = if is_missing f generation n then missed f n else n in
        (m.lifecycle_state ≡ n.lifecycle_state)
        × (m.created_at ≡ n.created_at)
        × (unleased f now m ≡ unleased f now n)
        × ((m.upstream_missing_generations ≡ n.upstream_missing_generations)
            ⊎ (IsUnseen generation n
                × (m.upstream_missing_generations ≡ n.upstream_missing_generations + 1)))
  unfolding missed
  missed_columns now generation n = elim (Bool-cases (is_missing f generation n)) [
    | inl e ↦ rw e (refl, refl, refl, inr (is_missing-IsUnseen generation n e, refl))
    | inr e ↦ rw e (refl, refl, refl, inl refl)
  ]

  reconciled-cases :
      (now minimum : ℕ) (o : Outcome f) (n : Node f)
      → is_complete f o ≡ true
      → (((reconciled now o.generation minimum n).lifecycle_state ≡ n.lifecycle_state)
          ⊎ (((reconciled now o.generation minimum n).lifecycle_state ≡ retired)
              × MayRetire now minimum o n))
        × IsCounted o n (reconciled now o.generation minimum n)
  unfolding reconciled
  reconciled-cases now minimum o n done =
      let m = if is_missing f o.generation n then missed f n else n in
      let (state, age, lease, count) = missed_columns now o.generation n in
      let counted : IsCounted o n m = elim count [
        | inl c ↦ inl c
        | inr (unseen, c) ↦ inr (done, unseen, c)
      ] in
      elim (Bool-cases (is_gone f now minimum m)) [
        | inl gone ↦
            let (old, over, missing) = is_gone-row now minimum m gone in
            (
              inr (
                rw gone (unfold buried in refl),
                record {
                  complete_run = done;
                  old = omega (arith, old, age);
                  lease_over = sym lease ∙ over;
                  missing = elim count [
                    | inl c ↦ inl (omega (arith, missing, c))
                    | inr (unseen, c) ↦ inr (unseen, omega (arith, missing, c))
                  ];
                },
              ),
              rw gone (unfold buried in counted),
            )
        | inr stays ↦ (inl (rw stays state), rw stays counted)
      ]

  -- The end of a refresh leaves the state of a known row alone, or it retires the row. It retires
  -- only after a complete refresh, only rows older than 12 hours whose publication lease is over, and
  -- only rows with the configured number of missing generations. It counts one generation more as
  -- missing only after a complete refresh, and only for a row that was not seen in the generation and
  -- has no source whose name contains "manual".
  pub finish_refresh_row :
      (now minimum : ℕ) (o : Outcome f) (db : List (Node f) × List RefreshRun) (k : String)
      (n : Node f)
      → find (has_id f k) db.0 ≡ some n
      → (m : Node f) × (find (has_id f k) (finish_refresh f now minimum o db).1.0 ≡ some m)
        × ((m.lifecycle_state ≡ n.lifecycle_state)
            ⊎ ((m.lifecycle_state ≡ retired) × MayRetire now minimum o n))
        × IsCounted o n m
  finish_refresh_row now minimum o (nodes, runs) k n found = elim (Bool-cases (is_complete f o)) [
    | inl done ↦
        let (state, counted) = reconciled-cases now minimum o n done in
        (
          reconciled now o.generation minimum n,
          unfold finish_refresh in rw done (reconcile_row now o.generation minimum k n nodes found),
          state,
          counted,
        )
    | inr partly ↦ (n, unfold finish_refresh in rw partly found, inl refl, inl refl)
  ]
