-- ===== src/Upstream/Outage.antt =====
-- What a refresh does when a source fails.
use mathlib.Core.List.{Memᴰ}
use proxy_fleet.Common.{
  ℕ, suc, String, Bool, true, false, ◌≡◌, ◌≤◌, ◌+◌, ◌⊎◌, inl, inr, refl, sym, ◌∙◌, ap, Option, none,
  some, List, [], ◌∷◌, ◌++◌, find, map, length, count_if, update_where, if◌then◌else◌, Bool-cases,
  ltb, ◌&&◌, ◌==◌, arith, ok, err, find-update_where,
}
use proxy_fleet.Common.Float.{Float}
use proxy_fleet.Domain.Lifecycle.{retired, candidate, eq_state, LifecycleState}
use proxy_fleet.Parser.{ParsedProxy}
use proxy_fleet.Parser.Validate.{Libraries}
use proxy_fleet.Store.Schema.{Node, has_id, has_hash}
use proxy_fleet.Store.Invariant.{id_of}
use proxy_fleet.Store.Upstream.{
  Member, Ingested, refreshed, inserted, ingest_found, ingest_one, ingest_many, begin_refresh,
}
use proxy_fleet.Store.Upstream.Refresh.{
  finish_refresh, copy_cached_source_generation, copy_from, confirmed,
}
use proxy_fleet.Upstream.{
  Source, SubscriptionConfig, body, not_modified, Answer, Web, fetch, with_ids, Tables, Progress,
  take_answer, take_answers, conclude, start, refresh,
}

abbrev pub answered : Answer → Bool
answered (source, ok _) = true
answered (source, err _) = false

-- The requests end in some order, each with its answer.
abbrev pub IsReordering : (List Answer → List Answer) → Type 0
IsReordering arrive =
    (test : Answer → Bool) (xs : List Answer) → count_if test (arrive xs) ≡ count_if test xs

count_map-le :
    {A : Type 0} (g : A → Answer) (xs : List A) → count_if answered (map g xs) ≤ length xs
count_map-le g [] = omega arith
count_map-le g (x ∷ xs) = ground (arith, count_map-le g xs)

-- A source that fails is not counted.
count_if-failed :
    {A : Type 0} (g : A → Answer) (x : A) (xs : List A)
    → Memᴰ x xs
    → answered (g x) ≡ false
    → suc (count_if answered (map g xs)) ≤ length xs
count_if-failed g x [] m e = elim m [ ]
count_if-failed g x (y ∷ ys) (Memᴰ.head same) e =
    let bound = count_map-le g ys in
    rw (ap (λ v. answered (g v)) (sym same) ∙ e) (omega (arith, bound))
count_if-failed g x (y ∷ ys) (Memᴰ.tail m) e =
    let rest = count_if-failed g x ys m e in
    elim (Bool-cases (answered (g y))) [
      | inl t ↦ rw t (omega (arith, rest))
      | inr t ↦ rw t (omega (arith, rest))
    ]

only_retired : (s : LifecycleState) → eq_state s retired ≡ true → s ≡ retired
only_retired s e = ground arith

module _ (f : Float) where
  -- The row keeps its state, or is one that was retired and is a candidate again; and it is not
  -- counted as missing.
  pub record IsSpared (n m : Node f) : Type 0 where
    pub state :
        (m.lifecycle_state ≡ n.lifecycle_state)
        ⊎ ((n.lifecycle_state ≡ retired) × (m.lifecycle_state ≡ candidate))
    pub missing : m.upstream_missing_generations ≤ n.upstream_missing_generations

  IsSpared-trans : {n m o : Node f} → IsSpared n m → IsSpared m o → IsSpared n o
  IsSpared-trans {n} {m} {o} a b = record {
    state = elim b.state [
      | inl same ↦ elim a.state [
        | inl was ↦ inl (same ∙ was)
        | inr (gone, back) ↦ inr (gone, same ∙ back)
      ]
      | inr (gone, back) ↦ elim a.state [
        | inl was ↦ inr (sym was ∙ gone, back)
        | inr (was, _) ↦ inr (was, back)
      ]
    ];
    missing = let first = a.missing in let second = b.missing in omega (arith, first, second);
  }

  -- The table holds a row with the id, and it is spared.
  abbrev pub Holds : String → Node f → List (Node f) → Type 0
  Holds k n nodes = (m : Node f) × (find (has_id f k) nodes ≡ some m) × IsSpared n m

  Holds-update_where :
      (k : String) (n : Node f) (test : Node f → Bool) (set : Node f → Node f)
      (nodes : List (Node f))
      → ((x : Node f) → (set x).id ≡ x.id)
      → ((x : Node f) → IsSpared x (set x))
      → Holds k n nodes
      → Holds k n (update_where test set nodes)
  Holds-update_where k n test set nodes same spares (m, found, spared) = (
    if test m then set m else m,
    find-update_where (id_of f) k test set m nodes same found,
    elim (Bool-cases (test m)) [
      | inl e ↦ rw e (IsSpared-trans spared (spares m))
      | inr e ↦ rw e spared
    ],
  )

  find-append :
      (k : String) (xs ys : List (Node f)) (m : Node f)
      → find (has_id f k) xs ≡ some m
      → find (has_id f k) (xs ++ ys) ≡ some m
  find-append k [] ys m e = absurd (cc e)
  find-append k (x ∷ xs) ys m e = elim (Bool-cases (has_id f k x)) [
    | inl t ↦ rw t (rw t at e)
    | inr t ↦ rw t (find-append k xs ys m (rw t at e))
  ]

  refreshed-IsSpared :
      (now generation : ℕ) (proxy : ParsedProxy) (x : Node f)
      → IsSpared x (refreshed f now generation proxy x)
  unfolding refreshed
  refreshed-IsSpared now generation proxy x = record {
    state = elim (Bool-cases (eq_state x.lifecycle_state retired)) [
      | inl e ↦ rw e (inr (only_retired x.lifecycle_state e, refl))
      | inr e ↦ rw e (inl refl)
    ];
    missing = omega arith;
  }

  module _ (now : ℕ) (k : String) (n : Node f) where
    ingest_found-Holds :
        (generation : ℕ) (s : Ingested f) (p : ParsedProxy × String) (o : Option (Node f))
        → Holds k n s.nodes
        → Holds k n (ingest_found f now generation s p o).nodes
    unfolding ingest_found refreshed
    ingest_found-Holds generation s (proxy, id) none (m, found, spared) =
        (m, find-append k s.nodes (inserted f now generation id proxy ∷ []) m found, spared)
    ingest_found-Holds generation s (proxy, id) (some row) h =
        Holds-update_where k n (has_id f row.id) (refreshed f now generation proxy) s.nodes
          (λ x. refl) (refreshed-IsSpared now generation proxy) h

    ingest_many-Holds :
        (generation : ℕ) (ps : List (ParsedProxy × String)) (s : Ingested f)
        → Holds k n s.nodes
        → Holds k n (ingest_many f now generation ps s).nodes
    unfolding ingest_many ingest_one
    ingest_many-Holds generation [] s h = h
    ingest_many-Holds generation (p ∷ ps) s h =
        ingest_many-Holds generation ps (ingest_one f now generation s p)
          (ingest_found-Holds generation s p (find (has_hash f p.0.config_hash) s.nodes) h)

    copy_from-Holds :
        (source : String) (generation : ℕ) (nodes : List (Node f)) (members : List Member)
        (previous : Option ℕ)
        → Holds k n nodes
        → Holds k n (copy_from f now source generation (nodes, members) previous).1.0
    unfolding copy_from
    copy_from-Holds source generation nodes members none h = h
    copy_from-Holds source generation nodes members (some previous) h =
        Holds-update_where k n _ (confirmed f now generation) nodes (λ x. refl)
          (λ x. record { state = inl refl; missing = omega arith }) h

    module _ (l : Libraries) (web : Web) where
      take_answer-Holds :
          (generation : ℕ) (a : Answer) (p : Progress f l web)
          → Holds k n p.db.nodes
          → Holds k n (take_answer f l web now generation a p).db.nodes
      unfolding take_answer copy_cached_source_generation
      take_answer-Holds generation (source, ok (body text etag last_modified)) p h = h
      take_answer-Holds generation (source, ok not_modified) p h =
          copy_from-Holds source.name generation p.db.nodes p.db.members _ h
      take_answer-Holds generation (source, err error) p h = h

      take_answer-count :
          (generation : ℕ) (a : Answer) (p : Progress f l web) (c : ℕ)
          → (take_answer f l web now generation a p).successful_sources + c
            ≡ p.successful_sources + (if answered a then suc c else c)
      unfolding take_answer
      take_answer-count generation (source, ok (body text etag last_modified)) p c = omega arith
      take_answer-count generation (source, ok not_modified) p c = omega arith
      take_answer-count generation (source, err error) p c = refl

      -- The rows after all answers, and the count of the sources that answered.
      take_answers_lem :
          (generation : ℕ) (as' : List Answer) (p : Progress f l web)
          → Holds k n p.db.nodes
          → Holds k n (take_answers f l web now generation as' p).db.nodes
            × ((take_answers f l web now generation as' p).successful_sources
                ≡ p.successful_sources + count_if answered as')
      unfolding take_answers
      take_answers_lem generation [] p h = (h, omega arith)
      take_answers_lem generation (a ∷ rest) p h =
          let (held, count) =
            take_answers_lem generation rest (take_answer f l web now generation a p)
              (take_answer-Holds generation a p h) in
          (held, count ∙ take_answer-count generation a p (count_if answered rest))

      conclude-Holds :
          (config : SubscriptionConfig) (id : String) (generation : ℕ) (p : Progress f l web)
          → suc p.successful_sources ≤ length config.urls
          → Holds k n p.db.nodes
          → ((conclude f l web now config id generation p).0.complete ≡ false)
            × Holds k n (conclude f l web now config id generation p).1.nodes
      unfolding conclude finish_refresh
      conclude-Holds config id generation p short h =
          let partly : (ltb 0 (length config.urls) && p.successful_sources == length config.urls)
              ≡ false =
            ground arith in
          rw partly (
            refl,
            ingest_many-Holds generation (with_ids web.uuid 1 p.parsed)
                (record { nodes = p.db.nodes; members = p.db.members; count = 0 }) h,
          )

      -- Where a source fails, in whatever order the requests end, the refresh is not complete, and it
      -- retires nothing: every node of the table is still there, in the state that it had or, if that
      -- was RETIRED, perhaps CANDIDATE, and no node is counted as missing once more.
      pub outage_retires_none :
          (config : SubscriptionConfig) (db : Tables f l web) (source : Source)
          → IsReordering web.buffer_unordered
          → Memᴰ source config.urls
          → answered (fetch web db.sources source) ≡ false
          → find (has_id f k) db.nodes ≡ some n
          → ((refresh f l web now config db).0.complete ≡ false)
            × Holds k n (refresh f l web now config db).1.nodes
      unfolding refresh begin_refresh
      outage_retires_none config db source order m fails found =
          let (generation, runs) = begin_refresh f now (web.uuid 0) (length config.urls) db.runs in
          let answers = map (fetch web db.sources) config.urls in
          let (held, count) =
            take_answers_lem generation (web.buffer_unordered answers) (start f l web db runs)
              (n, found, record { state = inl refl; missing = omega arith }) in
          let short = count_if-failed (fetch web db.sources) source config.urls m fails in
          let same = order answered answers in
          conclude-Holds config (web.uuid 0) generation
            (take_answers f l web now generation (web.buffer_unordered answers)
              (start f l web db runs))
            (omega (arith, count, short, same)) held
