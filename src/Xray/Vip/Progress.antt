-- ===== src/Xray/Vip/Progress.antt =====
-- When the VIP runtime is certain to be replaced.
use proxy_fleet.Common.{
  ℕ, String, Bool, true, false, ◌≡◌, refl, Option, none, some, List, Result, ok, err, arith,
}
use proxy_fleet.Common.State.{State}
use proxy_fleet.Common.Float.{Float}
use proxy_fleet.Parser.{ParsedProxy}
use proxy_fleet.Store.Schema.{Node}
use proxy_fleet.Store.Clients.{Usage}
use proxy_fleet.Xray.Vip.{
  VipCandidate, VipRuntime, VipConfig, VipState, runtime_of, stays, on_start, switch, on_preflight,
  on_port, reserve, on_parsed, challenge, with_candidate, maintain_vip, best_vip_candidate,
  drop_port,
}
use proxy_fleet.Xray.Vip.Switch.{IsBetter, MayReplace}

module _ (f : Float) where
  stays-IsBetter-false :
      (config : VipConfig f) (now : ℕ) (candidate : VipCandidate f) (current : VipRuntime f)
      → IsBetter f config now candidate current
      → stays f config now candidate current ≡ false
  unfolding stays
  stays-IsBetter-false config now candidate current h =
      let other = h.other in let aged = h.aged in let gain = h.gain in ground arith

  module _ {W : Type 0} (bind : ℕ → State W Bool)
      (start : ParsedProxy → ℕ → State W (Result String (Unit {0})))
      (start_fixed : ParsedProxy → ℕ → State W (Result String (Unit {0})))
      (stop : State W (Unit {0})) (parse : String → String → Result String ParsedProxy) where
    abbrev S : Type 0
    S = VipState f bind start start_fixed stop parse

    -- Xray starts the proxy on any port.
    abbrev pub Starts : ParsedProxy → Type 0
    Starts proxy =
        ((port : ℕ) (w : W) → (start proxy port w).0 ≡ ok tt)
        × ((port : ℕ) (w : W) → (start_fixed proxy port w).0 ≡ ok tt)

    -- The step succeeds, and the candidate is the runtime.
    abbrev pub Replaced : ℕ → VipCandidate f → Result String (Unit {0}) × S → Type 0
    Replaced now candidate r = (r.0 ≡ ok tt) × (r.1.vip ≡ some (runtime_of f now candidate))

    on_start-Replaced :
        (config : VipConfig f) (now : ℕ) (candidate : VipCandidate f)
        (before : Option (VipRuntime f)) (answer : Result String (Unit {0})) (s : S)
        → answer ≡ ok tt
        → Replaced now candidate
            (on_start f bind start start_fixed stop parse config now candidate before answer s)
    unfolding on_start
    on_start-Replaced config now candidate before (ok _) s e = (refl, refl)
    on_start-Replaced config now candidate before (err text) s e = absurd (cc e)

    switch-Replaced :
        (config : VipConfig f) (now : ℕ) (candidate : VipCandidate f) (proxy : ParsedProxy)
        (before : Option (VipRuntime f)) (s : S)
        → Starts proxy
        → Replaced now candidate
            (switch f bind start start_fixed stop parse config now candidate proxy before s)
    unfolding switch
    switch-Replaced config now candidate proxy none s h =
        on_start-Replaced config now candidate none (start_fixed proxy config.port s.world).0
          (record s { vip = none; world = (start_fixed proxy config.port s.world).1 })
          (h.1 config.port s.world)
    switch-Replaced config now candidate proxy (some old) s h =
        let w = (stop s.world).1 in
        on_start-Replaced config now candidate (some old) (start_fixed proxy config.port w).0
          (record s { vip = none; world = (start_fixed proxy config.port w).1 }) (h.1 config.port w)

    on_preflight-Replaced :
        (config : VipConfig f) (now : ℕ) (candidate : VipCandidate f) (proxy : ParsedProxy)
        (port : ℕ) (answer : Result String (Unit {0})) (s : S)
        → answer ≡ ok tt
        → Starts proxy
        → Replaced now candidate (
            on_preflight f bind start start_fixed stop parse config now candidate proxy port answer
              s)
    unfolding on_preflight drop_port
    on_preflight-Replaced config now candidate proxy port (err text) s e h = absurd (cc e)
    on_preflight-Replaced config now candidate proxy port (ok _) s e h =
        switch-Replaced config now candidate proxy s.vip (record s { world = (stop s.world).1 }) h

    on_port-Replaced :
        (config : VipConfig f) (now : ℕ) (candidate : VipCandidate f) (proxy : ParsedProxy)
        (answer : Result String ℕ) (port : ℕ) (s : S)
        → answer ≡ ok port
        → Starts proxy
        → Replaced now candidate
            (on_port f bind start start_fixed stop parse config now candidate proxy answer s)
    unfolding on_port
    on_port-Replaced config now candidate proxy (err text) port s e h = absurd (cc e)
    on_port-Replaced config now candidate proxy (ok free) port s e h =
        on_preflight-Replaced config now candidate proxy free (start proxy free s.world).0
          (record s { world = (start proxy free s.world).1 }) (h.0 free s.world) h

    -- The candidate is read, a port of the test range is free, and Xray starts the proxy.
    pub record IsReady (config : VipConfig f) (candidate : VipCandidate f) (s : S) : Type 0 where
      pub proxy : ParsedProxy
      pub read : parse candidate.raw_config "vip" ≡ ok proxy
      pub port : ℕ
      pub free : (reserve f bind start start_fixed stop parse config s).0 ≡ ok port
      pub starts : Starts proxy

    on_parsed-Replaced :
        (config : VipConfig f) (now : ℕ) (candidate : VipCandidate f) (s : S)
        → IsReady config candidate s
        → Replaced now candidate (
            on_parsed f bind start start_fixed stop parse config now candidate
              (parse candidate.raw_config "vip")
              s)
    unfolding on_parsed
    on_parsed-Replaced config now candidate s h =
        let step = reserve f bind start start_fixed stop parse config s in
        rw (h.read, on_parsed)
          (on_port-Replaced config now candidate h.proxy step.0 h.port step.1 h.free h.starts)

    challenge-Replaced :
        (config : VipConfig f) (now : ℕ) (candidate : VipCandidate f)
        (current : Option (VipRuntime f)) (s : S)
        → MayReplace f config now candidate current
        → IsReady config candidate s
        → Replaced now candidate
            (challenge f bind start start_fixed stop parse config now candidate current s)
    unfolding challenge
    challenge-Replaced config now candidate none s m h = on_parsed-Replaced config now candidate s h
    challenge-Replaced config now candidate (some current) s m h =
        rw (stays-IsBetter-false config now candidate current m, challenge)
          (on_parsed-Replaced config now candidate s h)

    with_candidate-Replaced :
        (config : VipConfig f) (now : ℕ) (best : Option (VipCandidate f))
        (candidate : VipCandidate f) (s : S)
        → best ≡ some candidate
        → MayReplace f config now candidate s.vip
        → IsReady config candidate s
        → Replaced now candidate
            (with_candidate f bind start start_fixed stop parse config now best s)
    unfolding with_candidate
    with_candidate-Replaced config now best candidate s e m h =
        rw (e, with_candidate) (challenge-Replaced config now candidate s.vip s m h)

    -- Where the VIP is enabled, the best candidate becomes its runtime and the step succeeds, if
    -- there is no runtime or one that the candidate may replace (another node that has run for the
    -- least interval and is beaten by the threshold), the candidate's link can be read, a port of
    -- the test range is free and Xray starts the proxy.
    pub maintain_vip-replaces :
        (config : VipConfig f) (now : ℕ) (nodes : List (Node f)) (usages : List Usage) (s : S)
        (candidate : VipCandidate f)
        → config.enabled ≡ true
        → best_vip_candidate f now nodes usages ≡ some candidate
        → MayReplace f config now candidate s.vip
        → IsReady config candidate s
        → Replaced now candidate
            (maintain_vip f bind start start_fixed stop parse config now nodes usages s)
    unfolding maintain_vip
    maintain_vip-replaces config now nodes usages s candidate on e m h =
        rw (on, maintain_vip)
          (with_candidate-Replaced config now (best_vip_candidate f now nodes usages) candidate s e
            m h)
