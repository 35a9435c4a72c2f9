-- ===== src/Probe/Dns/Cache.antt =====
-- What the cache of resolved addresses keeps, and what a preflight relies on.
use proxy_fleet.Common.{
  ℕ, ◌≤◌, ◌<◌, String, ◌≡◌, refl, Option, none, some, List, [], ◌∷◌, find, length, length-filter-le,
  All, All-filter, All-map, All-find, leb, filter, not, arith, ok, err, is_some, true, Bool-cases,
  inl, inr,
}
use proxy_fleet.Common.Float.{Float}
use proxy_fleet.Parser.{ParsedProxy}
use proxy_fleet.Probe.Outside.{Outside, ProbeConfig, Timed, elapsed, failed, done}
use proxy_fleet.Probe.Dns.{
  cache_capacity, CacheEntry, Process, make_room, insert_entry, remember, looked_up, look_up, live,
  from_cache, from_name, resolve_destination, dial, connected, after_resolve, preflight, Resolved,
  has_key, young, Outcome,
}

module _ (f : Float) (o : Outside f) where
  open o use {Ip, W}

  abbrev Kept : CacheEntry f o → Type 0
  Kept e = 0 < length e.addresses

  -- The cache is within its capacity, and every entry has an address.
  pub record IsSoundCache (cache : List (CacheEntry f o)) : Type 0 where
    pub bounded : length cache ≤ cache_capacity
    pub kept : All Kept cache

  length-make_room :
      (time : ℕ) (cache : List (CacheEntry f o))
      → length (make_room f o time cache) < cache_capacity
  unfolding make_room
  length-make_room time cache = ground arith

  All-make_room :
      (P : CacheEntry f o → Type 0) (time : ℕ) (cache : List (CacheEntry f o))
      → All P cache
      → All P (make_room f o time cache)
  unfolding make_room
  All-make_room P time cache h =
      let young_kept : All P (filter (young f o time) cache) =
        All-filter P (young f o time) cache (All-map P cache (λ x p _. p) h) in
      elim (Bool-cases (leb cache_capacity (length cache))) [
        | inr e ↦ rw e h
        | inl e ↦ elim (Bool-cases (leb cache_capacity (length (filter (young f o time) cache)))) [
          | inl e' ↦ rw (e, e') tt
          | inr e' ↦ rw (e, e') young_kept
        ]
      ]

  remember-IsSoundCache :
      (host : String) (port : ℕ) (a : Ip × ℕ) (rest : List (Ip × ℕ)) (p : Process f o)
      → IsSoundCache p.cache
      → IsSoundCache (remember f o host port (a ∷ rest) p).1.cache
  unfolding remember insert_entry
  remember-IsSoundCache host port a rest p h =
      let (time, w) = o.now p.world in
      let room = make_room f o time p.cache in
      let others = filter (λ (e : CacheEntry f o). not (has_key f o host port e)) room in
      record {
        bounded = omega (
          arith,
          length-make_room time p.cache,
          length-filter-le (λ (e : CacheEntry f o). not (has_key f o host port e)) room,
        );
        kept = (
          omega arith,
          All-filter Kept _ room
              (All-map Kept room (λ x q _. q) (All-make_room Kept time p.cache h.kept)),
        );
      }

  -- What a resolution returns and leaves: an address where it succeeds, and a sound cache.
  abbrev Answered : Resolved f o → Type 0
  Answered (ok (addresses, _)) = 0 < length addresses
  Answered (err _) = Unit

  abbrev Resolves : Resolved f o × Process f o → Type 0
  Resolves r = Answered r.0 × IsSoundCache r.1.cache

  looked_up-Resolves :
      (host : String) (port : ℕ) (answer : Timed String (List (Ip × ℕ))) (p : Process f o)
      → IsSoundCache p.cache
      → Resolves (looked_up f o host port answer p)
  unfolding looked_up
  looked_up-Resolves host port elapsed p h = (tt, h)
  looked_up-Resolves host port (failed text) p h = (tt, h)
  looked_up-Resolves host port (done []) p h = (tt, h)
  looked_up-Resolves host port (done (a ∷ rest)) p h =
      (omega arith, remember-IsSoundCache host port a rest p h)

  look_up-Resolves :
      (host : String) (port : ℕ) (budget : Option ℕ) (p : Process f o)
      → IsSoundCache p.cache
      → Resolves (look_up f o host port budget p)
  unfolding look_up
  look_up-Resolves host port none p h = (tt, h)
  look_up-Resolves host port (some remaining) p h = looked_up-Resolves host port _ _ h

  from_cache-Resolves :
      (host : String) (port time deadline : ℕ) (found : Option (CacheEntry f o)) (p : Process f o)
      → IsSoundCache p.cache
      → find (has_key f o host port) p.cache ≡ found
      → Resolves (from_cache f o host port deadline (live f o time found) p)
  unfolding from_cache
  from_cache-Resolves host port time deadline none p h e = look_up-Resolves host port _ _ h
  from_cache-Resolves host port time deadline (some entry) p h e =
      elim (Bool-cases (young f o time entry)) [
        | inl e' ↦ rw e' (All-find Kept (has_key f o host port) p.cache h.kept e, h)
        | inr e' ↦ rw e' (look_up-Resolves host port _ _ h)
      ]

  from_name-Resolves :
      (host : String) (port deadline : ℕ) (ip : Option Ip) (p : Process f o)
      → IsSoundCache p.cache
      → Resolves (from_name f o host port deadline ip p)
  unfolding from_name
  from_name-Resolves host port deadline (some ip) p h = (omega arith, h)
  from_name-Resolves host port deadline none p h =
      from_cache-Resolves host port (o.now p.world).0 deadline _ _ h refl

  -- A preflight that does not panic and leaves a sound cache.
  abbrev Completes : Outcome f o × Process f o → Type 0
  Completes r = (is_some r.0 ≡ true) × IsSoundCache r.1.cache

  connected-Completes :
      (started : ℕ) (dns : String) (answer : Timed _ (Unit {0})) (p : Process f o)
      → IsSoundCache p.cache
      → Completes (connected f o started dns answer p)
  unfolding connected
  connected-Completes started dns elapsed p h = (refl, h)
  connected-Completes started dns (failed e) p h = (refl, h)
  connected-Completes started dns (done _) p h = (refl, h)

  dial-Completes :
      (config : ProbeConfig f) (started : ℕ) (addresses : List (Ip × ℕ)) (dns : String)
      (budget : Option ℕ) (p : Process f o)
      → 0 < length addresses
      → IsSoundCache p.cache
      → Completes (dial f o config started addresses dns budget p)
  unfolding dial
  dial-Completes config started addresses dns none p n h = (refl, h)
  dial-Completes config started [] dns (some remaining) p n h = absurd (omega arith)
  dial-Completes config started (a ∷ rest) dns (some remaining) p n h =
      connected-Completes started dns _ _ h

  after_resolve-Completes :
      (config : ProbeConfig f) (started deadline : ℕ) (r : Resolved f o × Process f o)
      → Resolves r
      → Completes (after_resolve f o config started deadline r.0 r.1)
  unfolding after_resolve
  after_resolve-Completes config started deadline (ok (addresses, dns), p) h =
      dial-Completes config started addresses dns _ _ h.0 h.1
  after_resolve-Completes config started deadline (err e, p) h = (refl, h.1)

  -- From a cache of at most 1024 entries that all have an address, a preflight leaves such a cache,
  -- and it does not panic: the address list that it indexes at 0 is never empty.
  pub preflight-completes :
      (proxy : ParsedProxy) (config : ProbeConfig f) (deadline : ℕ) (p : Process f o)
      → IsSoundCache p.cache
      → (is_some (preflight f o proxy config deadline p).0 ≡ true)
        × IsSoundCache (preflight f o proxy config deadline p).1.cache
  unfolding preflight resolve_destination
  preflight-completes proxy config deadline p h =
      after_resolve-Completes config _ deadline _
        (from_name-Resolves proxy.address proxy.port deadline _ _ h)
