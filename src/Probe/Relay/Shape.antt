-- ===== src/Probe/Relay/Shape.antt =====
-- Which events the test of a tunnel reports.
use proxy_fleet.Common.{
  ℕ, ◌<◌, String, ◌≡◌, refl, ◌&&◌, inl, inr, Bool, true, false, Option, none, some, List, [], ◌∷◌,
  Bool-cases, leb, length, take, arith, Result, ok, err,
}
use proxy_fleet.Common.State.{State}
use proxy_fleet.Common.Float.{Float}
use proxy_fleet.Domain.Failure.{success, hard_failure, is_success}
use proxy_fleet.Domain.Evidence.{TestStage}
use proxy_fleet.Parser.Json.{Value}
use proxy_fleet.Probe.{ProbeEvent, event}
use proxy_fleet.Probe.Outside.{
  Outside, ProbeConfig, Timed, elapsed, failed, done, RequestError, Response, remaining_budget,
}
use proxy_fleet.Probe.Download.Blame.{IsDownload, download-IsDownload}
use proxy_fleet.Probe.Relay.{
  Answer, Tally, no_tally, too_late, on_body, on_answer, request, then_visit, visit, Round,
  tunnel_success, no_quorum, quorum_reached, judge, endpoint_count, quorum, http_endpoints,
  with_client, test_through_xray, answered, read_http_body_limited,
}

module _ (f : Float) where
  -- An event that neither praises the proxy nor counts as a hard failure of it.
  abbrev pub IsSoft : ProbeEvent f → Type 0
  IsSoft e = (hard_failure e.class ≡ false) × (is_success e.class ≡ false)

  -- A relay success, then an HTTP success.
  abbrev pub IsTunnel : ProbeEvent f → ProbeEvent f → Type 0
  IsTunnel r h =
      (r.stage ≡ TestStage.relay)
      × (r.class ≡ success)
      × (h.stage ≡ TestStage.http)
      × (h.class ≡ success)

  -- One soft event; or the two successes of a tunnel, and the download where one was due.
  abbrev pub IsReport : Bool → List (ProbeEvent f) → Type 0
  IsReport due [] = ⊥
  IsReport due (e ∷ []) = IsSoft e
  IsReport due (r ∷ h ∷ []) = IsTunnel r h × (due ≡ false)
  IsReport due (r ∷ h ∷ d ∷ []) = IsTunnel r h × (due ≡ true) × IsDownload f d
  IsReport due (_ ∷ _ ∷ _ ∷ _ ∷ _) = ⊥

  module _ (o : Outside f) (config : ProbeConfig f) (deadline : ℕ) where
    open o use {W, Client}

    -- An early return is soft.
    abbrev Halts : Round f o config deadline → Type 0
    Halts (err e) = IsSoft e
    Halts (ok t) = Unit

    too_late-Halts : (started : ℕ) (w : W) → Halts (too_late f o config deadline started w).0
    unfolding too_late event hard_failure is_success
    too_late-Halts started w = (refl, refl)

    on_body-Halts :
        (endpoint : String) (started status : ℕ) (t : Tally f) (body : Result Value ℕ) (w : W)
        → Halts (on_body f o config deadline endpoint started status t body w).0
    unfolding on_body
    on_body-Halts endpoint started status t (ok bytes) w = tt
    on_body-Halts endpoint started status t (err detail) w = tt

    on_answer-Halts :
        (endpoint : String) (started : ℕ) (t : Tally f) (answer : Timed RequestError (Response W))
        (w : W)
        → Halts (on_answer f o config deadline endpoint started t answer w).0
    unfolding on_answer
    on_answer-Halts endpoint started t (done response) w =
        let body =
          read_http_body_limited f o config deadline response.body
            config.http_probe_body_limit_bytes 0 w in
        elim (Bool-cases (answered response.status)) [
          | inl e ↦
              rw (e, on_answer) (on_body-Halts endpoint started response.status t body.0 body.1)
          | inr e ↦ rw (e, on_answer) tt
        ]
    on_answer-Halts endpoint started t (failed e) w = tt
    on_answer-Halts endpoint started t elapsed w = too_late-Halts started w

    request-Halts :
        (client : Client) (endpoint : String) (started : ℕ) (t : Tally f) (budget : Option ℕ)
        (w : W)
        → Halts (request f o config deadline client endpoint started t budget w).0
    unfolding request
    request-Halts client endpoint started t none w = too_late-Halts started w
    request-Halts client endpoint started t (some remaining) w =
        let answer = o.send client endpoint remaining w in
        on_answer-Halts endpoint started t answer.0 answer.1

    then_visit-Halts :
        (next : Tally f → State W (Round f o config deadline)) (round : Round f o config deadline)
        (w : W)
        → Halts round
        → ((t : Tally f) (w : W) → Halts (next t w).0)
        → Halts (then_visit f o config deadline next round w).0
    unfolding then_visit
    then_visit-Halts next (ok t) w h go = go t w
    then_visit-Halts next (err e) w h go = h

    visit-Halts :
        (client : Client) (endpoints : List String) (t : Tally f) (w : W)
        → Halts (visit f o config deadline client endpoints t w).0
    unfolding visit
    visit-Halts client [] t w = tt
    visit-Halts client (endpoint ∷ rest) t w =
        let started = o.now w in
        let budget = remaining_budget f o deadline started.1 in
        let round = request f o config deadline client endpoint started.0 t budget.0 budget.1 in
        then_visit-Halts (visit f o config deadline client rest) round.0 round.1
          (request-Halts client endpoint started.0 t budget.0 budget.1) (visit-Halts client rest)

    quorum_reached-IsReport :
        (client : Client) (due : Bool) (n : ℕ) (t : Tally f) (answers : List (Answer f)) (w : W)
        → 0 < length answers
        → IsReport
            (config.download_enabled && due)
            (quorum_reached f o config deadline client due n t answers w).0
    unfolding quorum_reached tunnel_success
    quorum_reached-IsReport client due n t [] w h = absurd (omega arith)
    quorum_reached-IsReport client due n t (first ∷ rest) w h =
        elim (Bool-cases (config.download_enabled && due)) [
          | inl e ↦
              rw (e, quorum_reached)
                ((refl, refl, refl, refl), refl, download-IsDownload f o config deadline client w)
          | inr e ↦ rw (e, quorum_reached) ((refl, refl, refl, refl), refl)
        ]

    no_quorum-IsSoft :
        (count n : ℕ) (t : Tally f) → IsSoft (no_quorum f o config deadline count n t)
    unfolding no_quorum event hard_failure is_success
    no_quorum-IsSoft count n t = (ground arith, ground arith)

    judge-IsReport :
        (client : Client) (due : Bool) (count n : ℕ) (round : Round f o config deadline) (w : W)
        → 0 < n
        → Halts round
        → IsReport
            (config.download_enabled && due)
            (judge f o config deadline client due count n round w).0
    unfolding judge
    judge-IsReport client due count n (err e) w pos h = h
    judge-IsReport client due count n (ok t) w pos h =
        elim (Bool-cases (leb n (length t.successes))) [
          | inl e ↦
              rw (e, judge) (quorum_reached-IsReport client due n t t.successes w (ground arith))
          | inr e ↦ rw (e, judge) (no_quorum-IsSoft count n t)
        ]

    quorum-positive : 0 < quorum f o config deadline
    unfolding quorum
    quorum-positive = ground arith

    with_client-IsReport :
        (due : Bool) (built : Result String Client) (w : W)
        → IsReport (config.download_enabled && due) (with_client f o config deadline due built w).0
    unfolding with_client event hard_failure is_success
    with_client-IsReport due (err text) w = (refl, refl)
    with_client-IsReport due (ok client) w =
        let round =
          visit f o config deadline client
            (take (endpoint_count f o config deadline) (http_endpoints f config)) (no_tally f) w in
        judge-IsReport client due (endpoint_count f o config deadline) (quorum f o config deadline)
          round.0 round.1 quorum-positive
          (visit-Halts client (take (endpoint_count f o config deadline) (http_endpoints f config))
            (no_tally f) w)

    -- The test of a tunnel always reports. It reports one event that is neither a success nor a hard
    -- failure, or a relay success and an HTTP success, with one download event after them exactly
    -- where the download test is enabled and due; a download event is a hard failure only for its
    -- speed.
    pub through-IsReport :
        (socks_port : ℕ) (due : Bool) (w : W)
        → IsReport
            (config.download_enabled && due)
            (test_through_xray f o config deadline socks_port due w).0
    unfolding test_through_xray
    through-IsReport socks_port due w =
        with_client-IsReport due (o.build_client socks_port config.timeout_seconds) w
