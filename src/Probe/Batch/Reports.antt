-- ===== src/Probe/Batch/Reports.antt =====
-- Which reports the test of a cohort ends with.
use text.Mathlib.Text.{is_lt}
use Prim.Native.String.{compare}
use proxy_fleet.Common.{
  count_if, ltb, ℕ, ◌≤◌, ◌<◌, String, Bool, true, ◌||◌, ◌≡◌, refl, sym, ap, ◌∙◌, ◌⊎◌, inl, inr,
  Option, none, some, List, [], ◌∷◌, ◌++◌, map, any, length, All, All-map, update_where, Result, ok,
  err, arith, Bool-cases, str_eq, eq_iff, is_some,
}
use proxy_fleet.Common.Counting.{any-count_if, count_if-map}
use proxy_fleet.Common.Float.{Float}
use proxy_fleet.Parser.{ParsedProxy}
use proxy_fleet.Probe.{ProbeEvent, ProbeReport}
use proxy_fleet.Probe.Outside.{Outside, ProbeConfig, probe_deadline}
use proxy_fleet.Probe.Dns.{Process, outside, Outcome, preflight}
use proxy_fleet.Probe.Dns.Cache.{IsSoundCache, preflight-completes}
use proxy_fleet.Probe.Batch.{
  Survivor, Candidate, Outcomes, test_survivor_batch, Checked, after_preflight, check_parsed, check,
  check_all, survivors_of, Reports, insert_report, collect, fill_in, finish_batch, test_batch,
  with_events, survivor,
}
use proxy_fleet.Probe.Batch.Complete.{
  IsComplete, test_survivor_batch-IsComplete, Reported, outcome_id, survivor_id,
}

module _ (f : Float) (o : Outside f) (config : ProbeConfig f)
    (parse : String → String → Result String ParsedProxy) where
  abbrev Entry : Type 0
  Entry = String × ProbeReport f

  abbrev pub has_report : String → Reports f o config parse → Bool
  has_report id results = any (λ (entry : Entry). str_eq entry.0 id) results

  -- A report with an event, or one that an outcome of these ids is going to fill.
  abbrev Due : List String → Entry → Type 0
  Due ids entry = (0 < length entry.1.events) ⊎ (any (str_eq entry.0) ids ≡ true)

  Due-grows : (extra ids : List String) (entry : Entry) → Due ids entry → Due (extra ++ ids) entry
  Due-grows [] ids entry h = h
  Due-grows (id ∷ extra) ids entry h = elim (Due-grows extra ids entry h) [
    | inl e ↦ inl e
    | inr e ↦ inr (ground arith)
  ]

  Due-same :
      (ids ids' : List String)
      → ((test : String → Bool) → count_if test ids ≡ count_if test ids')
      → (entry : Entry) → Due ids entry
      → Due ids' entry
  Due-same ids ids' same entry h = elim h [
    | inl e ↦ inl e
    | inr e ↦ inr (
        any-count_if (str_eq entry.0) ids'
        ∙ ap (ltb 0) (sym (same (str_eq entry.0)))
        ∙ sym (any-count_if (str_eq entry.0) ids)
        ∙ e)
  ]

  insert-Due :
      (ids : List String) (id : String) (report : ProbeReport f)
      (results : Reports f o config parse)
      → Due ids (id, report)
      → All (Due ids) results
      → All (Due ids) (insert_report f o config parse id report results)
  unfolding insert_report
  insert-Due ids id report [] d h = (d, tt)
  insert-Due ids id report ((k, r) ∷ rest) d h = elim (Bool-cases (str_eq id k)) [
    | inl e ↦ rw e (rw (← (eq_iff id k).0 e) d, h.1)
    | inr e ↦ rw e (elim (Bool-cases (is_lt (compare id k))) [
      | inl e' ↦ rw e' (d, h)
      | inr e' ↦ rw e' (h.0, insert-Due ids id report rest d h.1)
    ])
  ]

  has_report-insert :
      (id other : String) (report : ProbeReport f) (results : Reports f o config parse)
      → (str_eq id other || has_report other results) ≡ true
      → has_report other (insert_report f o config parse id report results) ≡ true
  unfolding insert_report
  has_report-insert id other report [] h = h
  has_report-insert id other report ((k, r) ∷ rest) h = elim (Bool-cases (str_eq id k)) [
    | inl e ↦
        let same : str_eq k other ≡ str_eq id other =
          ap (λ t. str_eq t other) (sym ((eq_iff id k).0 e)) in
        rw e (ground arith)
    | inr e ↦ rw e (elim (Bool-cases (is_lt (compare id k))) [
      | inl e' ↦ rw e' h
      | inr e' ↦ rw e' (ground (arith, has_report-insert id other report rest))
    ])
  ]

  -- An outcome with an event settles the entries that waited for it.
  update-Due :
      (id : String) (events : List (ProbeEvent f)) (ids : List String)
      (results : Reports f o config parse)
      → 0 < length events
      → All (Due (id ∷ ids)) results
      → All (Due ids) (
          update_where
            (λ (entry : Entry). str_eq entry.0 id)
            (with_events f o config parse events)
            results)
  update-Due id events ids [] n h = tt
  update-Due id events ids ((k, r) ∷ rest) n h = elim (Bool-cases (str_eq k id)) [
    | inl e ↦ rw e (inl n, update-Due id events ids rest n h.1)
    | inr e ↦
        rw e (
          elim h.0 [ inl m ↦ inl m | inr m ↦ inr (rw e at m) ],
          update-Due id events ids rest n h.1,
        )
  ]

  has_report-update :
      (id other : String) (events : List (ProbeEvent f)) (results : Reports f o config parse)
      → has_report other (
          update_where
            (λ (entry : Entry). str_eq entry.0 id)
            (with_events f o config parse events)
            results)
        ≡ has_report other results
  has_report-update id other events [] = refl
  has_report-update id other events ((k, r) ∷ rest) = elim (Bool-cases (str_eq k id)) [
    | inl e ↦ rw e (ap (λ b. str_eq k other || b) (has_report-update id other events rest))
    | inr e ↦ rw e (ap (λ b. str_eq k other || b) (has_report-update id other events rest))
  ]

  abbrev pub HasEvents : Entry → Type 0
  HasEvents entry = 0 < length entry.1.events

  fill_in-HasEvents :
      (outcomes : Outcomes f o config) (results : Reports f o config parse)
      → All (Reported f o config) outcomes
      → All (Due (map (outcome_id f o config) outcomes)) results
      → All HasEvents (fill_in f o config parse outcomes results)
  unfolding fill_in
  fill_in-HasEvents [] results n h =
      All-map _ results (λ entry d. elim d [ inl m ↦ m | inr m ↦ absurd (cc m) ]) h
  fill_in-HasEvents ((id, events) ∷ rest) results n h =
      fill_in-HasEvents rest _ n.1
        (update-Due id events (map (outcome_id f o config) rest) results n.0 h)

  has_report-fill_in :
      (other : String) (outcomes : Outcomes f o config) (results : Reports f o config parse)
      → has_report other (fill_in f o config parse outcomes results) ≡ has_report other results
  unfolding fill_in
  has_report-fill_in other [] results = refl
  has_report-fill_in other ((id, events) ∷ rest) results =
      has_report-fill_in other rest _ ∙ has_report-update id other events results

  abbrev entry_of : Checked f o config parse → Entry
  entry_of c = (c.id, c.report)

  collect-Due :
      (ids : List String) (all : List (Checked f o config parse))
      (results : Reports f o config parse)
      → All (λ c. Due ids (entry_of c)) all
      → All (Due ids) results
      → All (Due ids) (collect f o config parse all results)
  unfolding collect
  collect-Due ids [] results d h = h
  collect-Due ids (c ∷ rest) results d h =
      collect-Due ids rest _ d.1 (insert-Due ids c.id c.report results d.0 h)

  abbrev checked_id : Checked f o config parse → String
  checked_id c = c.id

  has_report-collect :
      (other : String) (all : List (Checked f o config parse)) (results : Reports f o config parse)
      → (any (λ id. str_eq id other) (map checked_id all) || has_report other results) ≡ true
      → has_report other (collect f o config parse all results) ≡ true
  unfolding collect
  has_report-collect other [] results h = h
  has_report-collect other (c ∷ rest) results h =
      let next = insert_report f o config parse c.id c.report results in
      let step = has_report-insert c.id other c.report results in
      let h' : (any (λ id. str_eq id other) (map checked_id rest) || has_report other next) ≡ true =
        ground (arith, step) in
      has_report-collect other rest next h'

  -- What the checks of a cohort leave: an event, or a proxy to test.
  abbrev IsChecked : Checked f o config parse → Type 0
  IsChecked c = (0 < length c.report.events) ⊎ (is_some c.report.proxy ≡ true)

  abbrev waiting : List (Checked f o config parse) → List String
  waiting all = map survivor_id (survivors_of f o config parse all)

  survivor-Due :
      (c : Checked f o config parse) (proxy : Option ParsedProxy) (events : List (ProbeEvent f))
      (rest : List Survivor)
      → (0 < length events) ⊎ (is_some proxy ≡ true)
      → (0 < length events)
        ⊎ (any (str_eq c.id) (map survivor_id (survivor f o config parse c proxy events ++ rest))
            ≡ true)
  survivor-Due c none [] rest h = elim h [ inl m ↦ inl m | inr m ↦ absurd (cc m) ]
  survivor-Due c none (e ∷ events) rest h = inl (omega arith)
  survivor-Due c (some proxy) (e ∷ events) rest h = inl (omega arith)
  survivor-Due c (some proxy) [] rest h =
      let same : str_eq c.id c.id ≡ true = (eq_iff c.id c.id).1 refl in inr (rw same refl)

  waiting-grows :
      (c : Checked f o config parse) (proxy : Option ParsedProxy) (events : List (ProbeEvent f))
      (rest : List Survivor) (entry : Entry)
      → Due (map survivor_id rest) entry
      → Due (map survivor_id (survivor f o config parse c proxy events ++ rest)) entry
  waiting-grows c none events rest entry h = h
  waiting-grows c (some proxy) (e ∷ events) rest entry h = h
  waiting-grows c (some proxy) [] rest entry h =
      Due-grows (c.id ∷ []) (map survivor_id rest) entry h

  survivors-Due :
      (all : List (Checked f o config parse))
      → All IsChecked all
      → All (λ c. Due (waiting all) (entry_of c)) all
  unfolding survivors_of
  survivors-Due [] h = tt
  survivors-Due (c ∷ rest) h = (
    survivor-Due c c.report.proxy c.report.events (survivors_of f o config parse rest) h.0,
    All-map _ rest
        (λ d due.
          waiting-grows c c.report.proxy c.report.events (survivors_of f o config parse rest)
            (entry_of d) due)
        (survivors-Due rest h.1),
  )

  candidate_id : Candidate → String
  candidate_id c = c.id

  -- What a check of one candidate and of all of them gives, from a sound cache.
  abbrev ChecksOne : Candidate → Option (Checked f o config parse) × Process f o → Type 0
  ChecksOne c r =
      ((one : Checked f o config parse) × (r.0 ≡ some one) × (one.id ≡ c.id) × IsChecked one)
      × IsSoundCache f o r.1.cache

  after_preflight-ChecksOne :
      (c : Candidate) (proxy : ParsedProxy) (deadline : ℕ) (outcome : Outcome f o) (p : Process f o)
      → is_some outcome ≡ true
      → IsSoundCache f o p.cache
      → ChecksOne c (after_preflight f o config parse c proxy deadline outcome, p)
  unfolding after_preflight
  after_preflight-ChecksOne c proxy deadline none p h s = absurd (cc h)
  after_preflight-ChecksOne c proxy deadline (some (ok _)) p h s = ((_, refl, refl, inr refl), s)
  after_preflight-ChecksOne c proxy deadline (some (err failure)) p h s =
      ((_, refl, refl, inr refl), s)

  check_parsed-ChecksOne :
      (c : Candidate) (deadline : ℕ) (parsed : Result String ParsedProxy) (p : Process f o)
      → IsSoundCache f o p.cache
      → ChecksOne c (check_parsed f o config parse c deadline parsed p)
  unfolding check_parsed
  check_parsed-ChecksOne c deadline (err text) p s = ((_, refl, refl, inl (omega arith)), s)
  check_parsed-ChecksOne c deadline (ok proxy) p s =
      let h = preflight-completes f o proxy config deadline p s in
      after_preflight-ChecksOne c proxy deadline (preflight f o proxy config deadline p).0
        (preflight f o proxy config deadline p).1 h.0 h.1

  abbrev ChecksAll :
      List Candidate → Option (List (Checked f o config parse)) × Process f o → Type 0
  ChecksAll candidates r =
      ((all : List (Checked f o config parse)) × (r.0 ≡ some all)
        × (map checked_id all ≡ map candidate_id candidates)
        × All IsChecked all)
      × IsSoundCache f o r.1.cache

  check_all-ChecksAll :
      (source : String) (candidates : List Candidate) (p : Process f o)
      → IsSoundCache f o p.cache
      → ChecksAll candidates (check_all f o config parse source candidates p)
  unfolding check_all check candidate_id
  check_all-ChecksAll source [] p s = (([], refl, refl, tt), s)
  check_all-ChecksAll source (c ∷ rest) p s =
      let start = outside f o (probe_deadline f o config) p in
      let ((one, e, id, h), s') = check_parsed-ChecksOne c start.0 (parse c.raw source) start.1 s in
      let ((all, e', ids, h'), s'') =
        check_all-ChecksAll source rest
          (check_parsed f o config parse c start.0 (parse c.raw source) start.1).1 s' in
      ((one ∷ all, rw (e, e') refl, rw (id, ids) refl, (h, h')), s'')

  -- A candidate's id is a key of the reports.
  abbrev pub IsReported : Reports f o config parse → Candidate → Type 0
  IsReported reports c = has_report c.id reports ≡ true

  has_report-candidates :
      (reports : Reports f o config parse) (candidates : List Candidate)
      → ((other : String)
          → any (λ id. str_eq id other) (map candidate_id candidates) ≡ true
          → has_report other reports ≡ true)
      → All (IsReported reports) candidates
  unfolding candidate_id
  has_report-candidates reports [] h = tt
  has_report-candidates reports (c ∷ rest) h =
      let same : str_eq c.id c.id ≡ true = (eq_iff c.id c.id).1 refl in
      (
        h c.id (rw same refl),
        has_report-candidates reports rest (λ other e. h other (ground (arith, e))),
      )

  any-completion :
      (test : String → Bool) (candidates : List Candidate)
      → any test (map candidate_id (o.completion candidates))
        ≡ any test (map candidate_id candidates)
  any-completion test candidates =
      any-count_if test (map candidate_id (o.completion candidates))
      ∙ ap (ltb 0) (
          count_if-map candidate_id test (o.completion candidates)
          ∙ o.completion-count (λ c. test (candidate_id c)) candidates
          ∙ sym (count_if-map candidate_id test candidates))
      ∙ sym (any-count_if test (map candidate_id candidates))

  -- From a cache of at most 1024 entries that all have an address, and with a range of test ports
  -- that is not empty, the test of a cohort ends with a report for each of its candidates, and every
  -- report has an event at least, whatever the parser, the network and Xray answer.
  pub test_batch_lem :
      config.test_start ≤ config.test_end
      → (source : String) (candidates : List Candidate) (p : Process f o) → IsSoundCache f o p.cache
      → (reports : Reports f o config parse) × ((test_batch f o config parse source candidates p).0
          ≡ some reports)
        × All (IsReported reports) candidates
        × All HasEvents reports
  unfolding test_batch finish_batch
  test_batch_lem order source candidates p s =
      let ended = o.completion candidates in
      let ((all, e, ids, h), s') = check_all-ChecksAll source ended p s in
      let survivors = survivors_of f o config parse all in
      let p' = (check_all f o config parse source ended p).1 in
      let outcomes = test_survivor_batch f o config (length survivors) survivors p' in
      let complete : IsComplete f o config survivors p'.reserved outcomes =
        test_survivor_batch-IsComplete f o config order (length survivors) survivors p'
          (omega arith) in
      let first = collect f o config parse all [] in
      let due : All (Due (map (outcome_id f o config) outcomes.0)) first =
        All-map _ first
          (Due-same (waiting all) (map (outcome_id f o config) outcomes.0)
            (λ test. sym (complete.ids test)))
          (collect-Due (waiting all) all [] (survivors-Due all h) tt) in
      (
        fill_in f o config parse outcomes.0 first,
        rw e refl,
        has_report-candidates (fill_in f o config parse outcomes.0 first) candidates (λ other found.
            has_report-fill_in other outcomes.0 first
            ∙ has_report-collect other all [] (
                rw ids
                  (ground (arith, any-completion (λ id. str_eq id other) candidates ∙ found)))),
        fill_in-HasEvents outcomes.0 first complete.reported due,
      )
