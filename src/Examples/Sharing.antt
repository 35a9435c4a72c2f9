-- ===== src/Examples/Sharing.antt =====
-- A subscription, a selection and a publication at concrete inputs.
use Prim.Native.String.{◌++◌ as str_append}
use proxy_fleet.Common.{
  ℕ, zero, suc, ◌+◌, ◌≤◌, String, true, false, not, ◌≡◌, refl, ◌⊎◌, none, some, List, [], ◌∷◌,
  length, take, filter, str_eq, unwrap_or, if◌then◌else◌, ok, arith, ltb, All-take,
}
use proxy_fleet.Common.Text.{trim}
use proxy_fleet.Parser.{ParsedProxy}
use proxy_fleet.Parser.Json.{json, str, num, member_of}
use proxy_fleet.Parser.Validate.{Url, Libraries}
use proxy_fleet.Parser.Share.{
  parse_share_url, parse_link, parse_url_proxy, of_url, accept, canonical_query,
}
use proxy_fleet.Parser.Accepted.{IsAccepted, parse_share_url-IsAccepted}
use proxy_fleet.Parser.Remark.{IsUrlLink, map_ok, remark_is_no_identity}
use proxy_fleet.Parser.Subscription.{subscription_lines, parse_subscription}
use proxy_fleet.Parser.Deduped.{IsDeduped, parse_subscription-IsDeduped}
use proxy_fleet.Domain.Lifecycle.{LifecycleState}
use proxy_fleet.Store.Schema.{Node}
use proxy_fleet.Store.Clients.{Clients}
use proxy_fleet.Selection.{Candidate, SelectionConfig, BestDecision, candidates_for_client, best}
use proxy_fleet.Selection.Chosen.{IsSample, IsGiven, best_lem}
use proxy_fleet.Store.Upstream.Publish.{PublicationSnapshot}
use proxy_fleet.Publisher.{Host, PublishingConfig, PublishResult, Machine, publish}
use proxy_fleet.Publisher.Pushes.{Within, pushes_twice_at_most}
use proxy_fleet.Publisher.Honest.{Pushed, push_is_real}
use proxy_fleet.Examples.Sample.{milli, noon, node_with}

abbrev url : Url
url = record {
  scheme = "trojan";
  username = "secret";
  password = none;
  host_str = some "h.test";
  port = some 443;
  path = "";
  query_pairs = [];
  fragment = some "one";
}

abbrev pub libraries : Libraries
libraries = record {
  Bytes = String;
  parse_url = λ raw. ok (
      if str_eq raw "trojan://secret@h.test:443#two"
      then record url { fragment = some "two" }
      else url);
  form_key = some;
  is_uuid = λ _. true;
  is_ip = λ _. false;
  standard = λ _. none;
  url_safe_no_pad = λ _. none;
  from_utf8 = some;
  read_map = λ _. none;
  to_vec = λ _. ok "canonical";
  sha256_hex = λ b. b;
}

abbrev pub link : String
link = "trojan://secret@h.test:443#one"

abbrev other_link : String
other_link = "trojan://secret@h.test:443#two"

abbrev pub accepted : ParsedProxy
accepted = record {
  source = "feed";
  raw_config = link;
  protocol = "trojan";
  address = "h.test";
  port = 443;
  remark = "one";
  normalized_config = json (
      ("protocol", str "trojan")
      ∷ ("address", str "h.test")
      ∷ ("port", num 443)
      ∷ ("user", str "secret")
      ∷ ("password", str "")
      ∷ ("path", str "")
      ∷ ("params", json [])
      ∷ []);
  config_hash = "canonical";
}

link_is_read : parse_share_url libraries link "feed" ≡ ok accepted
unfolding parse_share_url parse_link parse_url_proxy of_url accept trim canonical_query member_of
link_is_read = refl

parse_share_url-IsAccepted_example : IsAccepted libraries (trim link) "feed" accepted
parse_share_url-IsAccepted_example =
    parse_share_url-IsAccepted libraries link "feed" accepted link_is_read

parse_subscription-IsDeduped_example :
    IsDeduped
      (λ line. parse_share_url libraries line "feed")
      (subscription_lines libraries link)
      (parse_subscription libraries link "feed")
parse_subscription-IsDeduped_example = parse_subscription-IsDeduped libraries link "feed"

link_is_url : IsUrlLink libraries link url
unfolding trim
link_is_url = (refl, refl, refl)

other_link_is_url : IsUrlLink libraries other_link (record url { fragment = some "two" })
unfolding trim
other_link_is_url = (refl, refl, refl)

remark_is_no_identity_example :
    parse_share_url libraries other_link "feed"
    ≡ map_ok
        (λ (p : ParsedProxy). record p {
          remark = unwrap_or (some "two") "";
          raw_config = trim other_link;
        })
        (parse_share_url libraries link "feed")
remark_is_no_identity_example =
    remark_is_no_identity libraries link other_link "feed" url (some "two") link_is_url
      other_link_is_url

-- The first of the candidates, as many as asked for.
length-take : {A : Type 0} (n : ℕ) (xs : List A) → n ≤ length xs → length (take n xs) ≡ n
length-take zero xs h = refl
length-take (suc n) [] h = absurd (omega arith)
length-take (suc n) (x ∷ xs) h = omega (arith, length-take n xs (omega arith))

take-IsSample : IsSample milli take
take-IsSample = record {
  count = λ n xs h. length-take n xs h;
  members = λ P n xs h. All-take P n xs h;
}

abbrev selection : SelectionConfig milli
selection = record {
  sample_size = 5;
  weights = record {
    latency = 250;
    download = 250;
    availability = 250;
    fairness = 150;
    client_history = 100;
  };
  max_relay_delay_ms = 3000;
  target_download_kbps = 1000;
  assignment_ttl_seconds = 300;
}

abbrev pub serving : Node milli
serving = record (node_with "n1" "h1" LifecycleState.active none) {
  main_port = some 20500;
  publication_lease_until = some (noon + 1);
}

abbrev no_clients : Clients milli
no_clients = record { rows = []; assignments = []; usages = [] }

best_lem_example :
    ((filter
          (λ (c : Candidate milli). not c.circuit_open)
          (candidates_for_client milli noon 300 "c1" (serving ∷ []) no_clients)
        ≡ [])
      × (best milli ltb take selection noon "c1" (serving ∷ []) no_clients ≡ ok (none, no_clients)))
    ⊎ ((decision : BestDecision milli) × (after : Clients milli) × (best milli ltb take selection
            noon "c1"
            (serving ∷ [])
            no_clients
          ≡ ok (some decision, after))
        × IsGiven milli noon 300 "c1" (serving ∷ []) no_clients decision after)
best_lem_example =
    best_lem milli noon "c1" (serving ∷ []) no_clients ltb take take-IsSample selection

-- A host where every command succeeds and answers "1".
abbrev host : Host
host = record {
  W = ℕ;
  read = λ path w. (none, w);
  replace = λ path bytes w. (ok tt, w);
  is_dir = λ path w. (true, w);
  create_parent = λ dir w. (ok tt, w);
  holds_entries = λ dir w. (false, w);
  run = λ dir args w. (ok "1", w + 1);
  base64 = λ text. text;
  read_u64 = λ text. some 1;
  show = λ n. "n";
}

abbrev publishing : PublishingConfig
publishing = record {
  enabled = true;
  git_remote = "git@host:feed";
  git_branch = "main";
  author_name = "fleet";
  author_email = "fleet@host";
}

abbrev snapshot : PublicationSnapshot
snapshot = record { generation = 4; raw_configs = link ∷ [] }

abbrev machine : Machine host
machine = record { world = 0; commands = [] }

pushes_twice_at_most_example :
    Within host 2 machine (publish host "data" publishing snapshot machine)
pushes_twice_at_most_example = pushes_twice_at_most host "data" publishing snapshot machine

abbrev result : PublishResult
result = record { active_count = 1; changed = true; committed = true; pushed = true; commit = "1" }

run_publishes : (publish host "data" publishing snapshot machine).0 ≡ ok result
unfolding publish
run_publishes = refl

push_is_real_example : Pushed host (str_append "data" "/publisher-repo") "main"
push_is_real_example =
    push_is_real host "data" publishing snapshot machine result run_publishes refl
