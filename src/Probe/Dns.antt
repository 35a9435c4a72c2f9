-- ===== src/Probe/Dns.antt =====
-- `resolve_destination` and `preflight` of src/src/probe/mod.rs, with the cache of the resolver's
-- answers. The preflights of a cohort run side by side there; here one ends before the next begins.
pub mod Cache
use proxy_fleet.Common.{
  ℕ, ◌-◌, String, Bool, true, false, not, ◌&&◌, ◌==◌, Option, none, some, List, [], ◌∷◌, filter,
  find, length, leb, ltb, min, str_eq, if◌then◌else◌, Result, ok, err, is_some,
}
use proxy_fleet.Common.State.{State, pure, ◌>>=◌, ◌>>◌}
use proxy_fleet.Common.Float.{Float}
use proxy_fleet.Domain.Failure.{dns_failure, tcp_timeout, connection_refused}
use proxy_fleet.Domain.Evidence.{dns_tcp, seconds, minutes}
use proxy_fleet.Parser.{ParsedProxy}
use proxy_fleet.Parser.Json.{str}
use proxy_fleet.Probe.{ProbeEvent, event}
use proxy_fleet.Probe.Outside.{
  Outside, ProbeConfig, Timed, elapsed, failed, done, ConnectError, json, millis, remaining_budget,
  elapsed_since,
}

abbrev pub cache_ttl : ℕ
cache_ttl = minutes 5

abbrev pub cache_capacity : ℕ
cache_capacity = 1024

module _ (f : Float) (o : Outside f) where
  open o use {W, Ip}

  -- An entry of `DNS_CACHE`, with its key.
  pub record CacheEntry : Type 0 where
    pub host : String
    pub port : ℕ
    pub inserted_at : ℕ
    pub addresses : List (Ip × ℕ)

  -- The statics of the process that a probe uses, and the world outside it.
  pub record Process : Type 0 where
    pub cache : List CacheEntry
    pub reserved : List ℕ
    pub world : W

  abbrev pub outside : {A : Type 0} → State W A → State Process A
  outside step p = ((step p.world).0, record p { world = (step p.world).1 })

  abbrev pub has_key : String → ℕ → CacheEntry → Bool
  has_key host port e = str_eq e.host host && e.port == port

  abbrev pub young : ℕ → CacheEntry → Bool
  young time e = ltb (time - e.inserted_at) cache_ttl

  -- Where the cache is full, the entries that expired go, and then all of them.
  unfoldable pub make_room : ℕ → List CacheEntry → List CacheEntry
  make_room time cache =
      if leb cache_capacity (length cache)
      then (if leb cache_capacity (length (filter (young time) cache))
          then []
          else filter (young time) cache)
      else cache

  -- `HashMap::insert`
  unfoldable pub insert_entry : CacheEntry → List CacheEntry → List CacheEntry
  insert_entry e cache = e ∷ filter (λ other. not (has_key e.host e.port other)) cache

  -- The clock is read before the cache is cut down, and again for the new entry.
  unfoldable pub remember : String → ℕ → List (Ip × ℕ) → State Process (Unit {0})
  unfolding make_room insert_entry
  remember host port addresses p =
      let (time, w) = o.now p.world in
      let (later, w') = o.now w in
      (
        tt,
        record p {
          cache =
              insert_entry
                (record { host = host; port = port; inserted_at = later; addresses = addresses })
                (make_room time p.cache);
          world = w';
        },
      )

  abbrev no_address : Option ℕ → String → String → ProbeEvent f
  no_address duration text scope =
      event f dns_tcp dns_failure duration (json (("error", str text) ∷ ("scope", str scope) ∷ []))

  abbrev pub Resolved : Type 0
  Resolved = Result (ProbeEvent f) (List (Ip × ℕ) × String)

  -- What the resolver answered.
  unfoldable pub looked_up : String → ℕ → Timed String (List (Ip × ℕ)) → State Process Resolved
  looked_up host port elapsed = pure (err (no_address none "DNS timeout" "destination_resolver"))
  looked_up host port (failed text) = pure (err (no_address none text "destination_resolver"))
  looked_up host port (done []) =
      pure (err (no_address none "no address returned" "destination_resolver"))
  looked_up host port (done (a ∷ rest)) = do
    remember host port (a ∷ rest)
    pure (ok (a ∷ rest, "lookup"))

  unfoldable pub look_up : String → ℕ → Option ℕ → State Process Resolved
  unfolding looked_up
  look_up host port none =
      pure (err (no_address none "global probe deadline exceeded before DNS" "local_resolver"))
  look_up host port (some remaining) = do
    answer ← outside (o.lookup_host host port (min remaining (seconds 3)))
    looked_up host port answer

  -- An entry that expired counts as none.
  abbrev pub live : ℕ → Option CacheEntry → Option CacheEntry
  live time none = none
  live time (some e) = if young time e then some e else none

  abbrev cached : String → ℕ → ℕ → State Process (Option CacheEntry)
  cached host port time p = (live time (find (has_key host port) p.cache), p)

  unfoldable pub from_cache : String → ℕ → ℕ → Option CacheEntry → State Process Resolved
  unfolding look_up
  from_cache host port deadline (some e) = pure (ok (e.addresses, "cache"))
  from_cache host port deadline none = do
    remaining ← outside (remaining_budget f o deadline)
    look_up host port remaining

  unfoldable pub from_name : String → ℕ → ℕ → Option Ip → State Process Resolved
  unfolding from_cache
  from_name host port deadline (some ip) = pure (ok ((ip, port) ∷ [], "literal"))
  from_name host port deadline none = do
    time ← outside o.now
    entry ← cached host port time
    from_cache host port deadline entry

  unfoldable pub resolve_destination : String → ℕ → ℕ → State Process Resolved
  unfolding from_name
  resolve_destination host port deadline = from_name host port deadline (o.parse_ip host)

  -- A preflight that panics is `none`: `addresses[0]` of no addresses.
  abbrev pub Outcome : Type 0
  Outcome = Option (Result (ProbeEvent f) (Unit {0}))

  unfoldable pub connected : ℕ → String → Timed ConnectError (Unit {0}) → State Process Outcome
  connected started dns (done _) = pure (some (ok tt))
  connected started dns (failed e) = do
    spent ← outside (elapsed_since f o started)
    pure (
        some (
          err (
            event f dns_tcp (if e.refused then connection_refused else tcp_timeout) (some spent)
              (json (("error", str e.text) ∷ ("dns", str dns) ∷ [])))))
  connected started dns elapsed = do
    spent ← outside (elapsed_since f o started)
    pure (
        some (
          err (
            event f dns_tcp tcp_timeout (some spent)
              (json (("error", str "TCP timeout") ∷ ("dns", str dns) ∷ [])))))

  unfoldable pub dial :
      ProbeConfig f → ℕ → List (Ip × ℕ) → String → Option ℕ → State Process Outcome
  unfolding connected
  dial config started addresses dns none = do
    spent ← outside (elapsed_since f o started)
    pure (
        some (
          err (
            event f dns_tcp tcp_timeout (some spent)
              (json (("error", str "global probe deadline exceeded before TCP") ∷ [])))))
  dial config started [] dns (some remaining) = pure none
  dial config started (a ∷ rest) dns (some remaining) = do
    answer ← outside (o.connect a (min remaining (millis config.relay_timeout_ms)))
    connected started dns answer

  unfoldable pub after_resolve : ProbeConfig f → ℕ → ℕ → Resolved → State Process Outcome
  unfolding dial
  after_resolve config started deadline (err e) = pure (some (err e))
  after_resolve config started deadline (ok (addresses, dns)) = do
    remaining ← outside (remaining_budget f o deadline)
    dial config started addresses dns remaining

  unfoldable pub preflight : ParsedProxy → ProbeConfig f → ℕ → State Process Outcome
  unfolding resolve_destination after_resolve
  preflight proxy config deadline = do
    started ← outside o.now
    resolved ← resolve_destination proxy.address proxy.port deadline
    after_resolve config started deadline resolved
