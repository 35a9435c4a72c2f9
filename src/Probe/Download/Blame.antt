-- ===== src/Probe/Download/Blame.antt =====
-- What a download test can say of a proxy.
use proxy_fleet.Common.{
  ℕ, String, ◌≡◌, refl, ◌⊎◌, inl, inr, false, Option, none, some, List, [], ◌∷◌, Bool-cases, ltb,
  take, min, arith, ◌++◌, is_some,
}
use proxy_fleet.Common.State.{State, pure}
use proxy_fleet.Common.Float.{Float}
use proxy_fleet.Domain.Failure.{
  FailureClass, tls_timeout, endpoint_failure, download_timeout, download_too_slow, hard_failure,
}
use proxy_fleet.Domain.Evidence.{TestStage}
use proxy_fleet.Parser.Json.{Value}
use proxy_fleet.Probe.{ProbeEvent, event}
use proxy_fleet.Probe.Outside.{
  Outside, ProbeConfig, Timed, elapsed, failed, done, RequestError, Poll, chunk, broken, finished,
  silent, Response, remaining_budget,
}
use proxy_fleet.Probe.Download.{
  classify_request_error, gave_up, rate, on_poll, on_budget, drain, on_response, with_budget,
  download_endpoint, failed_download, after_mirror, try_mirrors, download, max_bytes, decides,
  succeeded, per_url_timeout, download_endpoints,
}

module _ (f : Float) where
  -- A download event that blames the proxy for nothing but its speed.
  abbrev pub IsDownload : ProbeEvent f → Type 0
  IsDownload e =
      (e.stage ≡ TestStage.download)
      × ((hard_failure e.class ≡ false) ⊎ (e.class ≡ download_too_slow))

  pub classify-cases :
      (e : RequestError) (timeout : FailureClass)
      → (classify_request_error e timeout ≡ timeout)
        ⊎ (classify_request_error e timeout ≡ tls_timeout)
        ⊎ (classify_request_error e timeout ≡ endpoint_failure)
  unfolding classify_request_error
  classify-cases e timeout = ground arith

  module _ (o : Outside f) (config : ProbeConfig f) (deadline : ℕ) where
    open o use {W}

    abbrev Ends : ProbeEvent f × W → Type 0
    Ends r = IsDownload r.0

    gave_up-Ends :
        (endpoint : String) (started : ℕ) (class : FailureClass) (detail : Value) (w : W)
        → hard_failure class ≡ false
        → Ends (gave_up f o config deadline endpoint started class detail w)
    unfolding gave_up event
    gave_up-Ends endpoint started class detail w h = (refl, inl h)

    rate-Ends :
        (endpoint : String) (started bytes : ℕ) (w : W)
        → Ends (rate f o config deadline endpoint started bytes w)
    unfolding rate hard_failure
    rate-Ends endpoint started bytes w = (refl, ground arith)

    module _ (endpoint : String) (started : ℕ) where
      on_poll-Ends :
          (bytes : ℕ) (next : ℕ → State W (ProbeEvent f)) (answer : Poll) (w : W)
          → ((b : ℕ) (w : W) → Ends (next b w))
          → Ends (on_poll f o config deadline endpoint started bytes next answer w)
      unfolding on_poll hard_failure
      on_poll-Ends bytes next (chunk n) w go = go _ w
      on_poll-Ends bytes next (broken text) w go = gave_up-Ends endpoint started _ _ w refl
      on_poll-Ends bytes next finished w go = rate-Ends endpoint started bytes w
      on_poll-Ends bytes next silent w go = gave_up-Ends endpoint started _ _ w refl

      on_budget-Ends :
          (bytes : ℕ) (next : ℕ → State W (ProbeEvent f)) (poll : ℕ → State W Poll)
          (budget : Option ℕ) (w : W)
          → ((b : ℕ) (w : W) → Ends (next b w))
          → Ends (on_budget f o config deadline endpoint started bytes next poll budget w)
      unfolding on_budget hard_failure
      on_budget-Ends bytes next poll none w go = gave_up-Ends endpoint started _ _ w refl
      on_budget-Ends bytes next poll (some remaining) w go = on_poll-Ends bytes next _ _ go

      drain-Ends :
          (polls : List (ℕ → State W Poll)) (bytes : ℕ) (w : W)
          → Ends (drain f o config deadline endpoint started polls bytes w)
      unfolding drain
      drain-Ends [] bytes w = elim (Bool-cases (ltb bytes max_bytes)) [
        | inl e ↦
            rw (e, drain)
              (on_budget-Ends bytes (rate f o config deadline endpoint started) (λ _. pure finished)
                (remaining_budget f o deadline w).0 (remaining_budget f o deadline w).1
                (rate-Ends endpoint started))
        | inr e ↦ rw (e, drain) (rate-Ends endpoint started bytes w)
      ]
      drain-Ends (poll ∷ polls) bytes w = elim (Bool-cases (ltb bytes max_bytes)) [
        | inl e ↦
            rw (e, drain)
              (on_budget-Ends bytes (drain f o config deadline endpoint started polls) poll
                (remaining_budget f o deadline w).0 (remaining_budget f o deadline w).1
                (drain-Ends polls))
        | inr e ↦ rw (e, drain) (rate-Ends endpoint started bytes w)
      ]

      on_response-Ends :
          (answer : Timed RequestError (Response W)) (w : W)
          → Ends (on_response f o config deadline endpoint started answer w)
      unfolding on_response hard_failure
      on_response-Ends (done response) w = elim (Bool-cases (succeeded response.status)) [
        | inl e ↦ rw e (drain-Ends response.body 0 w)
        | inr e ↦ rw e (gave_up-Ends endpoint started _ _ w refl)
      ]
      on_response-Ends (failed e) w =
          gave_up-Ends endpoint started _ _ w (elim (classify-cases e download_timeout) [
            | inl c ↦ rw c refl
            | inr (inl c) ↦ rw c refl
            | inr (inr c) ↦ rw c refl
          ])
      on_response-Ends elapsed w = gave_up-Ends endpoint started _ _ w refl

    with_budget-Ends :
        (client : o.Client) (endpoint : String) (started : ℕ) (budget : Option ℕ) (w : W)
        → Ends (with_budget f o config deadline client endpoint started budget w)
    unfolding with_budget hard_failure event
    with_budget-Ends client endpoint started none w = (refl, inl refl)
    with_budget-Ends client endpoint started (some remaining) w =
        let answer =
          o.send client endpoint (min remaining (per_url_timeout f o config deadline)) w in
        on_response-Ends endpoint started answer.0 answer.1

    failed_download-IsDownload :
        (failures : List (ProbeEvent f)) → IsDownload (failed_download f failures)
    unfolding failed_download hard_failure
    failed_download-IsDownload failures = (refl, ground arith)

    after_mirror-Ends :
        (client : o.Client) (failures : List (ProbeEvent f))
        (next : List (ProbeEvent f) → State W (ProbeEvent f)) (probe : ProbeEvent f) (w : W)
        → IsDownload probe
        → ((failures : List (ProbeEvent f)) (w : W) → Ends (next failures w))
        → Ends (after_mirror f o config deadline client failures next probe w)
    unfolding after_mirror
    after_mirror-Ends client failures next probe w h go = elim (Bool-cases (decides f probe)) [
      | inl e ↦ rw (e, after_mirror) h
      | inr e ↦ elim (Bool-cases (is_some (remaining_budget f o deadline w).0)) [
        | inl e' ↦ rw (e, e', after_mirror) (go _ _)
        | inr e' ↦ rw (e, e', after_mirror) (failed_download-IsDownload (failures ++ probe ∷ []))
      ]
    ]

    try_mirrors-Ends :
        (client : o.Client) (endpoints : List String) (failures : List (ProbeEvent f)) (w : W)
        → Ends (try_mirrors f o config deadline client endpoints failures w)
    unfolding try_mirrors download_endpoint
    try_mirrors-Ends client [] failures w = failed_download-IsDownload failures
    try_mirrors-Ends client (endpoint ∷ rest) failures w =
        let probe = download_endpoint f o config deadline client endpoint w in
        after_mirror-Ends client failures (try_mirrors f o config deadline client rest) probe.0
          probe.1 (with_budget-Ends client endpoint _ _ _) (try_mirrors-Ends client rest)

    pub download-IsDownload :
        (client : o.Client) (w : W) → IsDownload (download f o config deadline client w).0
    unfolding download
    download-IsDownload client w =
        try_mirrors-Ends client (take 3 (download_endpoints f config)) [] w
