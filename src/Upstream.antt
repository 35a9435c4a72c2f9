-- ===== src/Upstream.antt =====
-- `refresh` of src/src/upstream/mod.rs: every source is fetched, its configurations are ingested as
-- a new generation, and the refresh is finished.
pub mod Outage
use Prim.Native.String.{◌++◌ as str_append}
use proxy_fleet.Common.{
  ℕ, String, Bool, true, false, not, ◌&&◌, Option, none, some, List, [], ◌∷◌, ◌++◌, map, length,
  leb, max, ◌==◌, ◌+◌, if◌then◌else◌, Result, ok, err,
}
use proxy_fleet.Common.Float.{Float}
use proxy_fleet.Parser.{ParsedProxy, ParseReport}
use proxy_fleet.Parser.Validate.{Libraries}
use proxy_fleet.Parser.Subscription.{parse_subscription}
use proxy_fleet.Store.Schema.{Node}
use proxy_fleet.Store.Upstream.{Member, RefreshRun, Ingested, begin_refresh, ingest_many}
use proxy_fleet.Store.Upstream.Refresh.{Outcome, finish_refresh, copy_cached_source_generation}
use proxy_fleet.Store.Sources.{
  SourceRow, SystemEvent, source_http_cache, record_source_success, record_source_failure,
  record_invalid_config_rejections,
}

-- `SubscriptionSource`, and the two settings of `SubscriptionConfig` that a refresh reads.
pub record Source : Type 0 where
  pub name : String
  pub url : String

pub record SubscriptionConfig : Type 0 where
  pub urls : List Source
  pub prune_missing_after_cycles : ℕ

unfoldable pub complete_generations_before_retire : SubscriptionConfig → ℕ
complete_generations_before_retire c = max c.prune_missing_after_cycles 3

-- A request with its conditional headers, and a response as the client hands it on.
pub record Request : Type 0 where
  pub url : String
  pub if_none_match : Option String
  pub if_modified_since : Option String

pub record Response : Type 0 where
  pub status : ℕ
  pub etag : Option String
  pub last_modified : Option String
  pub text : Result String String

pub data FetchResult : Type 0 where
  body : (text : String) (etag last_modified : Option String) → FetchResult
  not_modified : FetchResult

pub record RefreshReport : Type 0 where
  pub generation : ℕ
  pub complete : Bool
  pub source_count : ℕ
  pub successful_sources : ℕ
  pub accepted : ℕ
  pub rejected : ℕ
  pub inserted : ℕ
  pub errors : List String

abbrev with_text : Response → Result String String → Result String FetchResult
with_text r (err error) = err error
with_text r (ok text) = ok (body text r.etag r.last_modified)

-- `error_for_status` refuses the codes 400 to 599; `status_error` is its text.
unfoldable pub read_response : (ℕ → String) → Result String Response → Result String FetchResult
read_response status_error (err error) = err error
read_response status_error (ok r) =
    if r.status == 304
    then ok not_modified
    else if leb 400 r.status && leb r.status 599
    then err (status_error r.status)
    else with_text r r.text

abbrev pub Answer : Type 0
Answer = Source × Result String FetchResult

abbrev request_of : Source → Option String × Option String → Request
request_of source (etag, last_modified) = record {
  url = source.url;
  if_none_match = etag;
  if_modified_since = last_modified;
}

-- What the refresh uses of the world outside: HTTP, the texts of numbers and errors, new ids, and
-- the order in which eight requests at a time end.
pub record Web : Type 0 where
  pub send : Request → Result String Response
  pub status_error : ℕ → String
  pub show : ℕ → String
  pub uuid : ℕ → String
  pub buffer_unordered : List Answer → List Answer

unfoldable pub fetch : Web → List SourceRow → Source → Answer
unfolding read_response source_http_cache
fetch web rows source = (
  source,
  read_response web.status_error
      (web.send (request_of source (source_http_cache source.name rows))),
)

-- The parsed proxies with the ids that new rows get.
abbrev pub with_ids : (ℕ → String) → ℕ → List ParsedProxy → List (ParsedProxy × String)
with_ids uuid k [] = []
with_ids uuid k (p ∷ ps) = (p, uuid k) ∷ with_ids uuid (k + 1) ps

module _ (f : Float) (l : Libraries) (web : Web) where
  -- The tables that a refresh writes.
  pub record Tables : Type 0 where
    pub nodes : List (Node f)
    pub members : List Member
    pub runs : List RefreshRun
    pub sources : List SourceRow
    pub events : List SystemEvent

  pub record Progress : Type 0 where
    pub db : Tables
    pub successful_sources : ℕ
    pub accepted : ℕ
    pub rejected : ℕ
    pub errors : List String
    pub parsed : List ParsedProxy

  -- One answer. The times of the statements of a refresh are one.
  unfoldable pub take_answer : ℕ → ℕ → Answer → Progress → Progress
  unfolding record_source_success record_source_failure record_invalid_config_rejections
      copy_cached_source_generation parse_subscription
  take_answer now generation (source, ok (body text etag last_modified)) p =
      let report = parse_subscription l text source.name in
      record p {
        db = record p.db {
          sources =
              record_source_success now source.name source.url etag last_modified p.db.sources;
          events =
              record_invalid_config_rejections web.show now (web.uuid (length p.db.events))
                source.name report.rejected p.db.events;
        };
        successful_sources = p.successful_sources + 1;
        accepted = p.accepted + length report.accepted;
        rejected = p.rejected + length report.rejected;
        parsed = p.parsed ++ report.accepted;
      }
  take_answer now generation (source, ok not_modified) p =
      let (copied, (nodes, members)) =
        copy_cached_source_generation f now source.name generation (p.db.nodes, p.db.members) in
      record p {
        db = record p.db {
          nodes = nodes;
          members = members;
          sources = record_source_success now source.name source.url none none p.db.sources;
        };
        successful_sources = p.successful_sources + 1;
        accepted = p.accepted + copied;
      }
  take_answer now generation (source, err error) p = record p {
    db = record p.db { sources = record_source_failure source.name source.url p.db.sources };
    errors = p.errors ++ str_append source.name (str_append ": " error) ∷ [];
  }

  unfoldable pub take_answers : ℕ → ℕ → List Answer → Progress → Progress
  unfolding take_answer
  take_answers now generation [] p = p
  take_answers now generation (a ∷ rest) p =
      take_answers now generation rest (take_answer now generation a p)

  -- The end of a refresh, after all answers.
  unfoldable pub conclude : ℕ → SubscriptionConfig → String → ℕ → Progress → RefreshReport × Tables
  unfolding ingest_many finish_refresh complete_generations_before_retire
  conclude now config id generation p =
      let ingested =
        ingest_many f now generation (with_ids web.uuid 1 p.parsed)
          (record { nodes = p.db.nodes; members = p.db.members; count = 0 }) in
      let (complete, (nodes, runs)) =
        finish_refresh f now (complete_generations_before_retire config)
          (record {
            id = id;
            generation = generation;
            source_count = length config.urls;
            successful_sources = p.successful_sources;
            parsed_count = p.accepted;
          })
          (ingested.nodes, p.db.runs) in
      (
        record {
          generation = generation;
          complete = complete;
          source_count = length config.urls;
          successful_sources = p.successful_sources;
          accepted = p.accepted;
          rejected = p.rejected;
          inserted = ingested.count;
          errors = p.errors;
        },
        record p.db { nodes = nodes; members = ingested.members; runs = runs },
      )

  abbrev pub start : Tables → List RefreshRun → Progress
  start db runs = record {
    db = record db { runs = runs };
    successful_sources = 0;
    accepted = 0;
    rejected = 0;
    errors = [];
    parsed = [];
  }

  unfoldable pub refresh : ℕ → SubscriptionConfig → Tables → RefreshReport × Tables
  unfolding begin_refresh take_answers conclude fetch
  refresh now config db =
      let (generation, runs) = begin_refresh f now (web.uuid 0) (length config.urls) db.runs in
      conclude now config (web.uuid 0) generation (
        take_answers now generation (web.buffer_unordered (map (fetch web db.sources) config.urls))
          (start db runs))
