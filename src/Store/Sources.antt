-- ===== src/Store/Sources.antt =====
-- The table `upstream_sources` of src/src/storage/mod.rs, and the event that records the rejected
-- lines of a subscription.
use Prim.Native.String.{◌++◌ as str_append}
use proxy_fleet.Common.{
  ℕ, String, Bool, true, Option, none, some, List, [], ◌∷◌, ◌++◌, any, find, update_where, take,
  length, ◌+◌, if◌then◌else◌, str_eq,
}
use proxy_fleet.Parser.Json.{Value, Elements, no_elements, element, array, json, str, num}

-- A row of `upstream_sources`; the name is its key.
pub record SourceRow : Type 0 where
  pub name : String
  pub url : String
  pub enabled : Bool
  pub last_success_at : Option ℕ
  pub etag : Option String
  pub last_modified : Option String
  pub failure_streak : ℕ

-- A row of `system_events`.
pub record SystemEvent : Type 0 where
  pub id : String
  pub created_at : ℕ
  pub level : String
  pub component : String
  pub event : String
  pub message : String
  pub details : Value

abbrev named : String → SourceRow → Bool
named name r = str_eq r.name name

abbrev cache_of : Option SourceRow → Option String × Option String
cache_of none = (none, none)
cache_of (some r) = (r.etag, r.last_modified)

unfoldable pub source_http_cache : String → List SourceRow → Option String × Option String
source_http_cache name rows = cache_of (find (named name) rows)

-- `COALESCE`
abbrev or_else : Option String → Option String → Option String
or_else none old = old
or_else (some x) old = some x

abbrev succeeded : ℕ → String → Option String → Option String → SourceRow → SourceRow
succeeded now url etag last_modified r = record r {
  url = url;
  enabled = true;
  last_success_at = some now;
  etag = or_else etag r.etag;
  last_modified = or_else last_modified r.last_modified;
  failure_streak = 0;
}

unfoldable pub record_source_success :
    ℕ → String → String → Option String → Option String → List SourceRow → List SourceRow
record_source_success now name url etag last_modified rows =
    if any (named name) rows
    then update_where (named name) (succeeded now url etag last_modified) rows
    else rows
      ++ record {
        name = name;
        url = url;
        enabled = true;
        last_success_at = some now;
        etag = etag;
        last_modified = last_modified;
        failure_streak = 0;
      }
        ∷ []

abbrev failed_once : String → SourceRow → SourceRow
failed_once url r = record r { url = url; failure_streak = r.failure_streak + 1 }

unfoldable pub record_source_failure : String → String → List SourceRow → List SourceRow
record_source_failure name url rows =
    if any (named name) rows
    then update_where (named name) (failed_once url) rows
    else rows
      ++ record {
        name = name;
        url = url;
        enabled = true;
        last_success_at = none;
        etag = none;
        last_modified = none;
        failure_streak = 1;
      }
        ∷ []

abbrev texts : List String → Elements
texts [] = no_elements
texts (t ∷ ts) = element (str t) (texts ts)

-- `show` writes a number in decimal; `id` is the id that `Uuid::new_v4` would draw.
unfoldable pub record_invalid_config_rejections :
    (ℕ → String) → ℕ → String → String → List String → List SystemEvent → List SystemEvent
record_invalid_config_rejections show now id source [] events = events
record_invalid_config_rejections show now id source (r ∷ rejected) events =
    events
    ++ record {
      id = id;
      created_at = now;
      level = "WARN";
      component = "parser";
      event = "INVALID_CONFIG";
      message =
          str_append (show (length (r ∷ rejected)))
            (str_append " invalid configuration line(s) from " source);
      details = json (
          ("source", str source)
          ∷ ("count", num (length (r ∷ rejected)))
          ∷ ("samples", array (texts (take 5 (r ∷ rejected))))
          ∷ []);
    }
      ∷ []
