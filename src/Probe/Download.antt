-- ===== src/Probe/Download.antt =====
-- The download test of src/src/probe/mod.rs: `classify_request_error`, `download_endpoints`,
-- `download_endpoint` and `download`.
pub mod Blame
use text.Mathlib.Text.{find?}
use proxy_fleet.Common.{
  ℕ, ◌+◌, String, Bool, true, false, not, ◌&&◌, ◌||◌, Option, none, some, List, [], ◌∷◌, ◌++◌, any,
  all, filter, map, foldl, take, leb, ltb, min, max, str_eq, is_some, if◌then◌else◌,
}
use proxy_fleet.Common.State.{State, pure, ◌>>=◌}
use proxy_fleet.Common.Float.{Float, fmax, fmin}
use proxy_fleet.Domain.Failure.{
  FailureClass, success, tls_timeout, endpoint_failure, download_timeout, download_too_slow,
  is_success, as_str,
}
use proxy_fleet.Domain.Evidence.{TestStage}
use proxy_fleet.Parser.Json.{Value, str, num, array, Elements, no_elements, element, null}
use proxy_fleet.Probe.{ProbeEvent, event, as_secs_f64, as_millis}
use proxy_fleet.Probe.Outside.{
  Outside, ProbeConfig, Timed, elapsed, failed, done, RequestError, Poll, chunk, broken, finished,
  silent, Response, json, error_json, remaining_budget, elapsed_since,
}

-- `str::contains`
abbrev has : String → String → Bool
has text part = is_some (find? text part)

unfoldable pub classify_request_error : RequestError → FailureClass → FailureClass
classify_request_error e timeout =
    if e.is_timeout
    then timeout
    else if has e.message "tls"
        || has e.message "certificate"
        || has e.message "corrupt message"
        || has e.message "wrong version number"
        || has e.message "invalidcontenttype"
    then tls_timeout
    else endpoint_failure

-- `retain(|endpoint| seen.insert(endpoint.clone()))`: the first of each.
unfoldable pub retain_new : List String → List String → List String
retain_new seen [] = []
retain_new seen (x ∷ xs) = elim (any (str_eq x) seen) [
  | true ↦ retain_new seen xs
  | false ↦ x ∷ retain_new (x ∷ seen) xs
]

unfoldable pub is_timeout_class : FailureClass → Bool
is_timeout_class download_timeout = true
is_timeout_class _ = false

unfoldable pub is_tls_class : FailureClass → Bool
is_tls_class tls_timeout = true
is_tls_class _ = false

unfoldable pub is_slow_class : FailureClass → Bool
is_slow_class download_too_slow = true
is_slow_class _ = false

abbrev pub max_bytes : ℕ
max_bytes = 1_000_000

abbrev pub succeeded : ℕ → Bool
succeeded status = leb 200 status && ltb status 300

module _ (f : Float) where
  unfoldable pub download_endpoints : ProbeConfig f → List String
  unfolding retain_new
  download_endpoints config = retain_new [] (config.download_url ∷ config.download_fallback_urls)

  module _ (o : Outside f) (config : ProbeConfig f) (deadline : ℕ) where
    open o use {W}
    open f use {le, lt, div, of_ℕ, ratio}

    unfoldable pub per_url_timeout : ℕ
    per_url_timeout = o.from_secs_f64 (
        fmin f (fmax f config.per_url_timeout_seconds (ratio 1 10))
          (of_ℕ (max config.timeout_seconds 1)))

    -- `ProbeEvent { endpoint: Some(..), ..event(..) }` at the time that passed.
    unfoldable pub gave_up : String → ℕ → FailureClass → Value → State W (ProbeEvent f)
    gave_up endpoint started class detail = do
      spent ← elapsed_since f o started
      pure (record (event f TestStage.download class (some spent) detail) {
        endpoint = some endpoint;
      })

    -- The bytes that arrived, rated by the time they took.
    unfoldable pub rate : String → ℕ → ℕ → State W (ProbeEvent f)
    rate endpoint started bytes = do
      spent ← elapsed_since f o started
      let bps = div (of_ℕ bytes) (fmax f (as_secs_f64 f spent) (ratio 1 1000))
      let kbps = div bps (of_ℕ 1024)
      pure (record {
        stage = TestStage.download;
        class = if lt kbps (of_ℕ config.min_download_kbps) then download_too_slow else success;
        fast_download = le (of_ℕ config.target_download_kbps) kbps;
        latency_ms = none;
        download_bps = some bps;
        bytes_transferred = some bytes;
        duration_ms = some (as_millis f spent);
        endpoint = some endpoint;
        detail = json (("kbps", o.json_f64 kbps) ∷ []);
      })

    -- One turn of the loop; `next` is the loop on the bytes so far.
    unfoldable pub on_poll :
        String → ℕ → ℕ → (ℕ → State W (ProbeEvent f)) → Poll → State W (ProbeEvent f)
    unfolding gave_up rate
    on_poll endpoint started bytes next (chunk n) = next (bytes + n)
    on_poll endpoint started bytes next (broken text) =
        gave_up endpoint started download_timeout (error_json text)
    on_poll endpoint started bytes next finished = rate endpoint started bytes
    on_poll endpoint started bytes next silent =
        gave_up endpoint started download_timeout (error_json "download stream deadline exceeded")

    unfoldable pub on_budget :
        String
        → ℕ
        → ℕ
        → (ℕ → State W (ProbeEvent f))
        → (ℕ → State W Poll)
        → Option ℕ
        → State W (ProbeEvent f)
    unfolding gave_up on_poll
    on_budget endpoint started bytes next poll none =
        gave_up endpoint started download_timeout (error_json "global probe deadline exceeded")
    on_budget endpoint started bytes next poll (some remaining) = do
      answer ← poll (min remaining per_url_timeout)
      on_poll endpoint started bytes next answer

    unfoldable pub drain : String → ℕ → List (ℕ → State W Poll) → ℕ → State W (ProbeEvent f)
    unfolding on_budget rate
    drain endpoint started [] bytes = elim (ltb bytes max_bytes) [
      | true ↦ do
        remaining ← remaining_budget f o deadline
        on_budget endpoint started bytes (rate endpoint started) (λ _. pure finished) remaining
      | false ↦ rate endpoint started bytes
    ]
    drain endpoint started (poll ∷ polls) bytes = elim (ltb bytes max_bytes) [
      | true ↦ do
        remaining ← remaining_budget f o deadline
        on_budget endpoint started bytes (drain endpoint started polls) poll remaining
      | false ↦ rate endpoint started bytes
    ]

    unfoldable pub on_response :
        String → ℕ → Timed RequestError (Response W) → State W (ProbeEvent f)
    unfolding drain gave_up
    on_response endpoint started (done response) =
        if succeeded response.status
        then drain endpoint started response.body 0
        else gave_up endpoint started endpoint_failure (json (("status", num response.status) ∷ []))
    on_response endpoint started (failed e) =
        gave_up endpoint started (classify_request_error e download_timeout) (error_json e.text)
    on_response endpoint started elapsed =
        gave_up endpoint started download_timeout (error_json "per-endpoint deadline exceeded")

    unfoldable pub with_budget : o.Client → String → ℕ → Option ℕ → State W (ProbeEvent f)
    unfolding on_response
    with_budget client endpoint started none = do
      spent ← elapsed_since f o started
      pure (
          event f TestStage.download download_timeout (some spent) (
            json
              (("endpoint", str endpoint) ∷ ("error", str "global probe deadline exceeded") ∷ [])))
    with_budget client endpoint started (some remaining) = do
      answer ← o.send client endpoint (min remaining per_url_timeout)
      on_response endpoint started answer

    unfoldable pub download_endpoint : o.Client → String → State W (ProbeEvent f)
    unfolding with_budget
    download_endpoint client endpoint = do
      started ← o.now
      remaining ← remaining_budget f o deadline
      with_budget client endpoint started remaining

  -- An answer that settles the test.
  abbrev pub decides : ProbeEvent f → Bool
  decides e = is_success e.class || is_slow_class e.class

  abbrev pub of_endpoint : Option String → Value
  of_endpoint none = null
  of_endpoint (some s) = str s

  abbrev pub listed : List Value → Elements
  listed [] = no_elements
  listed (v ∷ vs) = element v (listed vs)

  abbrev pub attempt : ProbeEvent f → Value
  attempt e = json (
      ("endpoint", of_endpoint e.endpoint)
      ∷ ("class", str (as_str e.class))
      ∷ ("detail", e.detail)
      ∷ [])

  -- `filter_map(|item| item.duration_ms).max().unwrap_or_default()`
  abbrev pub longest : List (ProbeEvent f) → ℕ
  longest [] = 0
  longest (e ∷ es) = elim e.duration_ms [ none ↦ longest es | some d ↦ max d (longest es) ]

  abbrev pub is_empty {ℓ} : {A : Type ℓ} → List A → Bool
  is_empty [] = true
  is_empty (_ ∷ _) = false

  -- What mirrors that all failed say of the proxy.
  unfoldable pub failed_download : List (ProbeEvent f) → ProbeEvent f
  unfolding is_timeout_class is_tls_class
  failed_download failures = record {
    stage = TestStage.download;
    class =
        if not (is_empty failures) && all (λ e. is_timeout_class e.class) failures
        then download_timeout
        else if not (is_empty failures) && all (λ e. is_tls_class e.class) failures
        then tls_timeout
        else endpoint_failure;
    fast_download = false;
    latency_ms = none;
    download_bps = none;
    bytes_transferred = none;
    duration_ms = some (longest failures);
    endpoint = none;
    detail = json (("attempts", array (listed (map attempt failures))) ∷ []);
  }

  module _ (o : Outside f) (config : ProbeConfig f) (deadline : ℕ) (client : o.Client) where
    open o use {W}

    unfoldable pub after_mirror :
        List (ProbeEvent f)
        → (List (ProbeEvent f) → State W (ProbeEvent f))
        → ProbeEvent f
        → State W (ProbeEvent f)
    unfolding failed_download
    after_mirror failures next probe = elim (decides probe) [
      | true ↦ pure probe
      | false ↦ do
        remaining ← remaining_budget f o deadline
        if is_some remaining
            then next (failures ++ probe ∷ [])
            else pure (failed_download (failures ++ probe ∷ []))
    ]

    unfoldable pub try_mirrors : List String → List (ProbeEvent f) → State W (ProbeEvent f)
    unfolding after_mirror
    try_mirrors [] failures = pure (failed_download failures)
    try_mirrors (endpoint ∷ rest) failures = do
      probe ← download_endpoint o config deadline client endpoint
      after_mirror failures (try_mirrors rest) probe

    unfoldable pub download : State W (ProbeEvent f)
    unfolding try_mirrors download_endpoints
    download = try_mirrors (take 3 (download_endpoints config)) []
