-- ===== src/Examples/Fetching.antt =====
-- A refresh of two sources, one of which fails.
use mathlib.Core.List.{Memᴰ}
use proxy_fleet.Common.{false, ◌≡◌, refl, none, some, [], ◌∷◌, if◌then◌else◌, str_eq, ok, err}
use proxy_fleet.Upstream.{Source, SubscriptionConfig, Response, Web, fetch, Tables, refresh}
use proxy_fleet.Upstream.Outage.{Holds, answered, outage_retires_none}
use proxy_fleet.Examples.Sample.{milli, noon}
use proxy_fleet.Examples.Sharing.{libraries, link, serving}

abbrev response : Response
response = record { status = 200; etag = some "tag"; last_modified = none; text = ok link }

-- The server of the second source is down.
abbrev web : Web
web = record {
  send = λ r. if str_eq r.url "https://one" then ok response else err "connection refused";
  status_error = λ n. "HTTP status";
  show = λ n. "n";
  uuid = λ n. "new";
  buffer_unordered = λ xs. xs;
}

abbrev one : Source
one = record { name = "one"; url = "https://one" }

abbrev two : Source
two = record { name = "two"; url = "https://two" }

abbrev config : SubscriptionConfig
config = record { urls = one ∷ two ∷ []; prune_missing_after_cycles = 3 }

abbrev tables : Tables milli libraries web
tables = record { nodes = serving ∷ []; members = []; runs = []; sources = []; events = [] }

two_fails : answered (fetch web [] two) ≡ false
unfolding fetch
two_fails = refl

outage_retires_none_example :
    ((refresh milli libraries web noon config tables).0.complete ≡ false)
    × Holds milli "n1" serving (refresh milli libraries web noon config tables).1.nodes
outage_retires_none_example =
    outage_retires_none milli noon "n1" serving libraries web config tables two (λ test xs. refl)
      (Memᴰ.tail (Memᴰ.head refl)) two_fails refl

-- The link of the first source is a new node of generation 1.
report : (refresh milli libraries web noon config tables).0.inserted ≡ 1
unfolding refresh proxy_fleet.Parser.Share.parse_share_url proxy_fleet.Parser.Json.member_of
    proxy_fleet.Store.Upstream.ingest_one proxy_fleet.Store.Upstream.ingest_found
report = refl
