-- ===== src/Probe/Relay.antt =====
-- The test of a tunnel in src/src/probe/mod.rs: `http_endpoints`, `read_http_body_limited` and
-- `test_through_xray`, with the download that follows a success.
pub mod Shape
use proxy_fleet.Common.{
  ℕ, ◌+◌, String, Bool, true, false, not, ◌&&◌, ◌==◌, Option, none, some, List, [], ◌∷◌, ◌++◌, map,
  length, take, leb, ltb, min, max, clamp, if◌then◌else◌, Result, ok, err, u64_max,
}
use proxy_fleet.Common.State.{State, pure, ◌>>=◌}
use proxy_fleet.Common.Float.{Float}
use proxy_fleet.Domain.Failure.{
  FailureClass, success, relay_timeout, tls_timeout, endpoint_failure, local_overload,
}
use proxy_fleet.Domain.Evidence.{TestStage}
use proxy_fleet.Parser.Json.{Value, str, num, array}
use proxy_fleet.Probe.{ProbeEvent, event, as_secs_f64}
use proxy_fleet.Probe.Outside.{
  Outside, ProbeConfig, Timed, elapsed, failed, done, RequestError, Poll, chunk, broken, finished,
  silent, Response, json, error_json, remaining_budget, elapsed_since,
}
use proxy_fleet.Probe.Download.{download, classify_request_error, retain_new, listed}

abbrev deadline_exceeded : Value
deadline_exceeded = error_json "global probe deadline exceeded"

-- `is_success() || is_redirection()`
abbrev answered : ℕ → Bool
answered status = leb 200 status && ltb status 400

-- `usize::saturating_add`
abbrev saturating_add : ℕ → ℕ → ℕ
saturating_add a b = min (a + b) u64_max

module _ (f : Float) where
  open f use {F, mul, of_ℕ, round}

  unfoldable pub http_endpoints : ProbeConfig f → List String
  unfolding retain_new
  http_endpoints config = retain_new [] (config.test_url ∷ config.fallback_urls)

  -- An entry of `successes`, before it becomes JSON.
  pub record Answer : Type 0 where
    pub endpoint : String
    pub status : ℕ
    pub bytes : ℕ
    pub latency_ms : F

  -- What the loop over the endpoints counts.
  pub record Tally : Type 0 where
    pub successes : List Answer
    pub timeouts : ℕ
    pub tls_failures : ℕ
    pub failures : List Value

  abbrev pub no_tally : Tally
  no_tally = record { successes = []; timeouts = 0; tls_failures = 0; failures = [] }

  abbrev pub add_failure : Value → Tally → Tally
  add_failure detail t = record t { failures = t.failures ++ detail ∷ [] }

  unfoldable pub count_class : FailureClass → Tally → Tally
  count_class relay_timeout t = record t { timeouts = t.timeouts + 1 }
  count_class tls_timeout t = record t { tls_failures = t.tls_failures + 1 }
  count_class _ t = t

  module _ (o : Outside f) (config : ProbeConfig f) (deadline : ℕ) where
    open o use {W, Client}

    unfoldable pub on_chunk :
        ℕ → ℕ → (ℕ → State W (Result Value ℕ)) → Poll → State W (Result Value ℕ)
    on_chunk limit bytes next (chunk n) = next (saturating_add bytes n)
    on_chunk limit bytes next (broken text) = pure (err (error_json text))
    on_chunk limit bytes next finished = pure (ok (min bytes limit))
    on_chunk limit bytes next silent = pure (err (error_json "HTTP body read deadline exceeded"))

    unfoldable pub read_chunk :
        ℕ
        → ℕ
        → (ℕ → State W (Result Value ℕ))
        → (ℕ → State W Poll)
        → Option ℕ
        → State W (Result Value ℕ)
    unfolding on_chunk
    read_chunk limit bytes next poll none =
        pure (err (error_json "global probe deadline exceeded while reading body"))
    read_chunk limit bytes next poll (some remaining) = do
      answer ← poll remaining
      on_chunk limit bytes next answer

    unfoldable pub read_http_body_limited :
        List (ℕ → State W Poll) → ℕ → ℕ → State W (Result Value ℕ)
    unfolding read_chunk
    read_http_body_limited [] limit bytes = elim (ltb bytes limit) [
      | true ↦ do
        remaining ← remaining_budget f o deadline
        read_chunk limit bytes (λ b. pure (ok (min b limit))) (λ _. pure finished) remaining
      | false ↦ pure (ok (min bytes limit))
    ]
    read_http_body_limited (poll ∷ polls) limit bytes = elim (ltb bytes limit) [
      | true ↦ do
        remaining ← remaining_budget f o deadline
        read_chunk limit bytes (read_http_body_limited polls limit) poll remaining
      | false ↦ pure (ok (min bytes limit))
    ]

    -- The early return of the loop, or its next tally.
    abbrev pub Round : Type 0
    Round = Result (ProbeEvent f) Tally

    unfoldable pub too_late : ℕ → State W Round
    too_late started = do
      spent ← elapsed_since f o started
      pure (err (event f TestStage.relay relay_timeout (some spent) deadline_exceeded))

    unfoldable pub on_body : String → ℕ → ℕ → Tally → Result Value ℕ → State W Round
    on_body endpoint started status t (ok bytes) = do
      spent ← elapsed_since f o started
      pure (
          ok (record t {
            successes =
                t.successes
                ++ record {
                  endpoint = endpoint;
                  status = status;
                  bytes = bytes;
                  latency_ms = mul (as_secs_f64 f spent) (of_ℕ 1000);
                }
                  ∷ [];
          }))
    on_body endpoint started status t (err detail) = pure (ok (add_failure detail t))

    unfoldable pub on_answer : String → ℕ → Tally → Timed RequestError (Response W) → State W Round
    unfolding read_http_body_limited on_body count_class too_late
    on_answer endpoint started t (done response) =
        if answered response.status
        then (do
          body ← read_http_body_limited response.body config.http_probe_body_limit_bytes 0
          on_body endpoint started response.status t body)
        else pure (
            ok (
              add_failure (json (("endpoint", str endpoint) ∷ ("status", num response.status) ∷ []))
                t))
    on_answer endpoint started t (failed e) = pure (
        ok (
          add_failure (json (("endpoint", str endpoint) ∷ ("error", str e.text) ∷ []))
            (count_class (classify_request_error e relay_timeout) t)))
    on_answer endpoint started t elapsed = too_late started

    unfoldable pub request : Client → String → ℕ → Tally → Option ℕ → State W Round
    unfolding on_answer too_late
    request client endpoint started t none = too_late started
    request client endpoint started t (some remaining) = do
      answer ← o.send client endpoint remaining
      on_answer endpoint started t answer

    unfoldable pub then_visit : (Tally → State W Round) → Round → State W Round
    then_visit next (ok t) = next t
    then_visit next (err e) = pure (err e)

    unfoldable pub visit : Client → List String → Tally → State W Round
    unfolding request then_visit
    visit client [] t = pure (ok t)
    visit client (endpoint ∷ rest) t = do
      started ← o.now
      remaining ← remaining_budget f o deadline
      round ← request client endpoint started t remaining
      then_visit (visit client rest) round

    abbrev pub answer_json : Answer → Value
    answer_json a = json (
        ("endpoint", str a.endpoint)
        ∷ ("status", num a.status)
        ∷ ("bytes", num a.bytes)
        ∷ ("latency_ms", o.json_f64 a.latency_ms)
        ∷ [])

    abbrev quorum_json : ℕ → Tally → Value
    quorum_json quorum t = json (
        ("quorum", num quorum)
        ∷ ("successful", array (listed f (map answer_json t.successes)))
        ∷ ("failed", array (listed f t.failures))
        ∷ [])

    unfoldable pub tunnel_success : TestStage → Answer → Value → ProbeEvent f
    tunnel_success stage first details = record {
      stage = stage;
      class = success;
      fast_download = false;
      latency_ms = some first.latency_ms;
      download_bps = none;
      bytes_transferred = none;
      duration_ms = some (round first.latency_ms);
      endpoint = some first.endpoint;
      detail = details;
    }

    unfoldable pub no_quorum : ℕ → ℕ → Tally → ProbeEvent f
    no_quorum endpoint_count quorum t =
        event f TestStage.http
          (if t.timeouts == endpoint_count && ltb 0 endpoint_count
            then relay_timeout
            else if t.tls_failures == endpoint_count && ltb 0 endpoint_count
            then tls_timeout
            else endpoint_failure)
          none
          (json (
            ("error", str "HTTP endpoint quorum not reached")
            ∷ ("quorum", num quorum)
            ∷ ("failed", array (listed f t.failures))
            ∷ []))

    -- The events of a tunnel that answered; the first answer is the one reported.
    unfoldable pub quorum_reached :
        Client → Bool → ℕ → Tally → List Answer → State W (List (ProbeEvent f))
    unfolding tunnel_success
    quorum_reached client run_download quorum t [] = pure []
    quorum_reached client run_download quorum t (first ∷ rest) =
        let events =
          tunnel_success TestStage.relay first (quorum_json quorum t)
          ∷ tunnel_success TestStage.http first (quorum_json quorum t)
          ∷ [] in
        if config.download_enabled && run_download
        then (do last ← download f o config deadline client; pure (events ++ last ∷ []))
        else pure events

    unfoldable pub judge : Client → Bool → ℕ → ℕ → Round → State W (List (ProbeEvent f))
    unfolding quorum_reached no_quorum
    judge client run_download endpoint_count quorum (err e) = pure (e ∷ [])
    judge client run_download endpoint_count quorum (ok t) =
        if leb quorum (length t.successes)
        then quorum_reached client run_download quorum t t.successes
        else pure (no_quorum endpoint_count quorum t ∷ [])

    unfoldable pub endpoint_count : ℕ
    unfolding http_endpoints
    endpoint_count = min (length (http_endpoints config)) (max config.http_probe_max_endpoints 1)

    unfoldable pub quorum : ℕ
    unfolding endpoint_count
    quorum = clamp 1 (max endpoint_count 1) config.http_probe_success_quorum

    unfoldable pub with_client : Bool → Result String Client → State W (List (ProbeEvent f))
    unfolding visit judge endpoint_count quorum http_endpoints
    with_client run_download (err text) =
        pure (event f TestStage.relay local_overload none (error_json text) ∷ [])
    with_client run_download (ok client) = do
      round ← visit client (take endpoint_count (http_endpoints config)) no_tally
      judge client run_download endpoint_count quorum round

    unfoldable pub test_through_xray : ℕ → Bool → State W (List (ProbeEvent f))
    unfolding with_client
    test_through_xray socks_port run_download =
        with_client run_download (o.build_client socks_port config.timeout_seconds)
