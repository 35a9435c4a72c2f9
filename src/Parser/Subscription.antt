-- ===== src/Parser/Subscription.antt =====
-- `parse_subscription` of src/src/parser/mod.rs, `subscription_lines` and `redact`.
use Prim.Native.String.{◌++◌ as str_append}
use text.Mathlib.Text.{starts_with}
use proxy_fleet.Common.{
  String, Bool, not, ◌&&◌, Option, none, some, List, [], ◌∷◌, ◌++◌, any, filter, map, str_eq,
  unwrap_or, if◌then◌else◌, Result, ok, err,
}
use proxy_fleet.Common.Text.{trim, split, is_empty, contains_text, split_at}
use proxy_fleet.Parser.{ParsedProxy, ParseReport}
use proxy_fleet.Parser.Validate.{Libraries}
use proxy_fleet.Parser.Share.{decode_b64, parse_share_url}

abbrev scheme_only : Option (String × String) → String
scheme_only none = "<invalid-line>"
scheme_only (some (scheme, _)) = str_append scheme "://<redacted>"

unfoldable pub redact : String → String
redact raw = scheme_only (split_at raw "://")

abbrev is_link : String → Bool
is_link line = not (is_empty line) && not (starts_with line "#")

-- One line: accepted where its hash is new, dropped where it is not, or rejected. `seen` is the set
-- of the hashes accepted.
unfoldable pub add_line :
    String → Result String ParsedProxy → List String → ParseReport → List String × ParseReport
unfolding redact
add_line line (ok proxy) seen report =
    if any (str_eq proxy.config_hash) seen
    then (seen, report)
    else (proxy.config_hash ∷ seen, record report { accepted = report.accepted ++ proxy ∷ [] })
add_line line (err error) seen report = (
  seen,
  record report {
    rejected = report.rejected ++ str_append error (str_append ": " (redact line)) ∷ [];
  },
)

unfoldable pub add_lines :
    (String → Result String ParsedProxy)
    → List String
    → List String
    → ParseReport
    → List String × ParseReport
unfolding add_line
add_lines parse [] seen report = (seen, report)
add_lines parse (line ∷ rest) seen report =
    let (seen', report') = add_line line (parse line) seen report in
    add_lines parse rest seen' report'

module _ (l : Libraries) where
  abbrev decoded_text : Option l.Bytes → Option String
  decoded_text none = none
  decoded_text (some bytes) = l.from_utf8 bytes

  -- `lines()` also drops a last line that is empty and the `\r` of a line's end, as the trim and the
  -- filter after it do.
  unfoldable pub subscription_lines : String → List String
  unfolding trim decode_b64 split
  subscription_lines payload =
      let trimmed = trim payload in
      let decoded =
        if contains_text trimmed "://" then none else decoded_text (decode_b64 l trimmed) in
      filter is_link (map trim (split 10 (unwrap_or decoded trimmed)))

  unfoldable pub parse_subscription : String → String → ParseReport
  unfolding subscription_lines add_lines
  parse_subscription payload source =
      (add_lines (λ line. parse_share_url l line source) (subscription_lines payload) []
        (record { accepted = []; rejected = [] })).1
