-- ===== src/Probe/Outside.antt =====
-- What a probe of src/src/probe/mod.rs meets outside the service: the clock, the resolver, the
-- sockets, the Xray processes and the HTTP client. Each step may change the world.
use proxy_fleet.Common.{
  ℕ, ◌-◌, ◌*◌, ◌==◌, String, Bool, Option, none, some, List, [], ◌∷◌, Result, if◌then◌else◌, max,
  ◌+◌, ◌≡◌, count_if,
}
use proxy_fleet.Common.State.{State, pure, ◌>>=◌}
use proxy_fleet.Common.Float.{Float}
use proxy_fleet.Domain.Evidence.{seconds}
use proxy_fleet.Parser.{ParsedProxy}
use proxy_fleet.Parser.Json.{Value, Members, no_members, member, object, str}

-- `tokio::time::timeout(.., action).await`
pub data Timed (E A : Type 0) : Type 0 where
  elapsed : Timed E A
  failed : E → Timed E A
  done : A → Timed E A

-- `reqwest::Error`: `is_timeout()`, `format!("{error:?}").to_ascii_lowercase()` and `to_string()`
pub record RequestError : Type 0 where
  pub is_timeout : Bool
  pub message : String
  pub text : String

-- `std::io::Error` of a connect: whether its kind is `ConnectionRefused`, and its text
pub record ConnectError : Type 0 where
  pub refused : Bool
  pub text : String

-- `stream.next()` of a response body, under a timeout: a chunk of so many bytes, or the end.
pub data Poll : Type 0 where
  chunk : ℕ → Poll
  broken : String → Poll
  finished : Poll
  silent : Poll

-- A response, with the polls that its body answers, each from the time it may take. A body of which
-- all these are used up is at its end.
pub record Response (W : Type 0) : Type 0 where
  pub status : ℕ
  pub body : List (ℕ → State W Poll)

pub record Outside (f : Float) : Type 1 where
  pub W : Type 0
  pub Ip : Type 0
  pub Client : Type 0
  pub now : State W ℕ
  -- `address.parse::<IpAddr>()`
  pub parse_ip : String → Option Ip
  pub lookup_host : String → ℕ → ℕ → State W (Timed String (List (Ip × ℕ)))
  pub connect : Ip × ℕ → ℕ → State W (Timed ConnectError (Unit {0}))
  -- `TcpListener::bind` on the loopback address
  pub bind : ℕ → State W Bool
  -- `XraySession::start`, `XrayBatchSession::start` and `stop`
  pub start_one : ParsedProxy → ℕ → State W (Result String (Unit {0}))
  pub start_batch : List ParsedProxy → List ℕ → State W (Result String (Unit {0}))
  pub stop : State W (Unit {0})
  -- the client through a SOCKS port, with its timeout
  pub build_client : ℕ → ℕ → Result String Client
  pub send : Client → String → ℕ → State W (Timed RequestError (Response W))
  -- `Duration::from_secs_f64`, and a float as a JSON number
  pub from_secs_f64 : f.F → ℕ
  pub json_f64 : f.F → Value
  -- the order in which the futures of a `buffer_unordered` end, for all of them
  pub completion : {A : Type 0} → List A → List A
  pub completion-count :
      {A : Type 0} (test : A → Bool) (xs : List A)
      → count_if test (completion xs) ≡ count_if test xs

-- The fields of `AppConfig` that a probe reads.
pub record ProbeConfig (f : Float) : Type 0 where
  pub test_start : ℕ
  pub test_end : ℕ
  pub test_url : String
  pub fallback_urls : List String
  pub relay_timeout_ms : ℕ
  pub candidate_batch_timeout_seconds : ℕ
  pub http_probe_max_endpoints : ℕ
  pub http_probe_success_quorum : ℕ
  pub http_probe_body_limit_bytes : ℕ
  pub download_enabled : Bool
  pub download_url : String
  pub download_fallback_urls : List String
  pub timeout_seconds : ℕ
  pub per_url_timeout_seconds : f.F
  pub min_download_kbps : ℕ
  pub target_download_kbps : ℕ

-- `serde_json::json!({..})`, and the usual object with an error text.
abbrev members : List (String × Value) → Members
members [] = no_members
members ((k, v) ∷ rest) = member k v (members rest)

abbrev pub json : List (String × Value) → Value
json fields = object (members fields)

abbrev pub error_json : String → Value
error_json text = json (("error", str text) ∷ [])

abbrev pub millis : ℕ → ℕ
millis n = n * 1_000_000

module _ (f : Float) (o : Outside f) where
  -- `started.elapsed()`
  unfoldable pub elapsed_since : ℕ → State o.W ℕ
  elapsed_since started = do time ← o.now; pure (time - started)

  unfoldable pub remaining_budget : ℕ → State o.W (Option ℕ)
  remaining_budget deadline = do
    time ← o.now
    pure (if deadline - time == 0 then none else some (deadline - time))

  unfoldable pub probe_deadline : ProbeConfig f → State o.W ℕ
  probe_deadline config = do
    time ← o.now
    pure
        (time + seconds (max (max config.candidate_batch_timeout_seconds config.timeout_seconds) 1))
