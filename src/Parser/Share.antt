-- ===== src/Parser/Share.antt =====
-- `parse_share_url` of src/src/parser/mod.rs, and the parsers of each form of a share link.
use Prim.Native.Char.{code}
use Prim.Native.String.{◌++◌ as str_append}
use text.Mathlib.Text.{starts_with}
use proxy_fleet.Common.{
  ℕ, String, Bool, not, ◌&&◌, ◌||◌, ◌==◌, Option, none, some, List, [], ◌∷◌, leb, ltb, any, map,
  str_eq, unwrap_or, or_else, if◌then◌else◌, Result, ok, ensure, context, ◌>>=◌, ◌>>◌,
}
use proxy_fleet.Common.Text.{
  trim, trim_matches, trim_end_matches, to_lower, is_empty, before_first, split_once, rsplit_once,
  strip_prefix, contains_text, parse_u16,
}
use proxy_fleet.Common.BTree.{get, insert, remove, from_pairs}
use proxy_fleet.Parser.{ParsedProxy}
use proxy_fleet.Parser.Json.{Value, object, str, num, as_str, as_u64, json, members_of}
use proxy_fleet.Parser.Validate.{
  Url, Libraries, validate_user_id, validate_address, validate_transport_parameters,
}

abbrev pub in_list : List String → String → Bool
in_list texts s = any (str_eq s) texts

-- The tuple that each parser returns.
pub record Parts : Type 0 where
  pub protocol : String
  pub address : String
  pub port : ℕ
  pub remark : String
  pub normalized : Value

-- `number_or_string_u16`
abbrev within_u16 : Option ℕ → Option ℕ
within_u16 none = none
within_u16 (some n) = if leb n 65535 then some n else none

abbrev parse_text : Option String → Option ℕ
parse_text none = none
parse_text (some s) = parse_u16 s

unfoldable pub number_or_string_u16 : Value → Option ℕ
unfolding parse_u16
number_or_string_u16 v = or_else (within_u16 (as_u64 v)) (parse_text (as_str v))

-- `canonical_query`: the display names go, and the tokens without case get one case.
abbrev pub is_remark : String → Bool
is_remark key = in_list ("remark" ∷ "remarks" ∷ "ps" ∷ "name" ∷ []) key

abbrev is_token_key : String → Bool
is_token_key key =
    in_list ("sni" ∷ "host" ∷ "security" ∷ "type" ∷ "net" ∷ "fp" ∷ "flow" ∷ "headertype" ∷ []) key

unfoldable pub canonical_pairs : List (String × String) → List (String × String)
unfolding to_lower
canonical_pairs [] = []
canonical_pairs ((k, v) ∷ rest) =
    let key = to_lower k in
    let others = canonical_pairs rest in
    if is_remark key then others else (key, if is_token_key key then to_lower v else v) ∷ others

unfoldable pub canonical_query : Url → List (String × String)
unfolding canonical_pairs from_pairs
canonical_query url = from_pairs (canonical_pairs url.query_pairs) []

abbrev pub text_entry : String × String → String × Value
text_entry (k, v) = (k, str v)

abbrev pub query_json : List (String × String) → Value
query_json entries = object (members_of (map text_entry entries))

-- A bracket around an IPv6 host
abbrev pub unbracket : Option String → String
unbracket host = to_lower (trim_matches (λ c. code c == 91 || code c == 93) (unwrap_or host ""))

abbrev pub ciphers : List String
ciphers =
    "aes-128-gcm" ∷ "aes-256-gcm" ∷ "chacha20-poly1305" ∷ "chacha20-ietf-poly1305"
    ∷ "xchacha20-poly1305" ∷ "xchacha20-ietf-poly1305" ∷ "2022-blake3-aes-128-gcm"
    ∷ "2022-blake3-aes-256-gcm" ∷ "2022-blake3-chacha20-poly1305" ∷ []

abbrev pub supported : List String
supported = "vmess" ∷ "vless" ∷ "trojan" ∷ "ss" ∷ "socks" ∷ "socks5" ∷ []

module _ (l : Libraries) where
  -- `decode_b64` and `percent_decode`
  unfoldable pub decode_b64 : String → Option l.Bytes
  unfolding trim_end_matches
  decode_b64 input =
      or_else (l.standard input) (l.url_safe_no_pad (trim_end_matches (λ c. code c == 61) input))

  unfoldable pub percent_decode : String → String
  percent_decode value = unwrap_or (l.form_key value) value

  abbrev utf8_of : Option l.Bytes → Option String
  utf8_of none = none
  utf8_of (some bytes) = l.from_utf8 bytes

  -- `Url::parse` of a link, and what is read from it.
  unfoldable pub of_url : Url → Result String Parts
  unfolding validate_user_id canonical_query percent_decode trim_matches to_lower
  of_url url = do
    let protocol = to_lower url.scheme
    ensure (in_list ("vless" ∷ "trojan" ∷ "socks" ∷ "socks5" ∷ []) protocol)
        "unsupported URL proxy scheme"
    let address = unbracket url.host_str
    port ← context url.port "proxy URL has no port"
    let user = if is_empty url.username then "" else percent_decode url.username
    let password = percent_decode (unwrap_or url.password "")
    ensure (not (in_list ("vless" ∷ "trojan" ∷ []) protocol && is_empty user))
        "proxy URL has no credential"
    (if str_eq protocol "vless" then validate_user_id l user else ok tt)
    ok (record {
      protocol = protocol;
      address = address;
      port = port;
      remark = unwrap_or url.fragment "";
      normalized = json (
          ("protocol", str protocol)
          ∷ ("address", str address)
          ∷ ("port", num port)
          ∷ ("user", str user)
          ∷ ("password", str password)
          ∷ ("path", str url.path)
          ∷ ("params", query_json (canonical_query url))
          ∷ []);
    })

  unfoldable pub parse_url_proxy : String → Result String Parts
  unfolding of_url
  parse_url_proxy raw = l.parse_url raw >>= of_url

  abbrev str_at : String → List (String × Value) → Option String
  str_at key payload = elim (get key payload) [ none ↦ none | some v ↦ as_str v ]

  abbrev u16_at : String → List (String × Value) → Option ℕ
  u16_at key payload = elim (get key payload) [ none ↦ none | some v ↦ number_or_string_u16 v ]

  unfoldable pub of_payload : List (String × Value) → Result String Parts
  unfolding validate_user_id trim to_lower number_or_string_u16 insert remove
  of_payload payload = do
    let address = to_lower (trim (unwrap_or (str_at "add" payload) ""))
    port ← context (u16_at "port" payload) "vmess payload has invalid port"
    validate_user_id l (unwrap_or (str_at "id" payload) "")
    let named = remove "remark" (remove "remarks" (remove "ps" payload))
    ok (record {
      protocol = "vmess";
      address = address;
      port = port;
      remark = unwrap_or (str_at "ps" payload) "";
      normalized = json (
          ("protocol", str "vmess")
          ∷ (
            "payload",
            object (members_of (insert "port" (num port) (insert "add" (str address) named))),
          )
          ∷ []);
    })

  unfoldable pub parse_vmess : String → Result String Parts
  unfolding decode_b64 of_payload before_first
  parse_vmess raw = do
    link ← context (strip_prefix raw "vmess://") "invalid vmess URL"
    decoded ← context (decode_b64 (before_first 35 link)) "vmess payload is not base64"
    payload ← context (l.read_map decoded) "vmess payload is not JSON"
    of_payload payload

  -- The credential and the server of a Shadowsocks link.
  unfoldable pub of_server : String → String → Url → Result String Parts
  unfolding canonical_query trim_matches to_lower split_once
  of_server remark credential url = do
    let address = unbracket url.host_str
    port ← context url.port "shadowsocks URL has no port"
    (method, password) ← context (split_once 58 credential) "shadowsocks URL has invalid credential"
    ensure (in_list ciphers (to_lower method)) "unsupported shadowsocks cipher"
    ensure (not (is_empty password)) "shadowsocks password is empty"
    ok (record {
      protocol = "ss";
      address = address;
      port = port;
      remark = remark;
      normalized = json (
          ("protocol", str "ss")
          ∷ ("address", str address)
          ∷ ("port", num port)
          ∷ ("method", str (to_lower method))
          ∷ ("password", str password)
          ∷ ("params", query_json (canonical_query url))
          ∷ []);
    })

  abbrev decoded_text : String → String → Result String String
  decoded_text input message = do
    bytes ← context (decode_b64 input) message
    context (l.from_utf8 bytes) "invalid utf-8 sequence"

  abbrev body_of : String → Option (String × String) → String × String
  body_of link none = (link, "")
  body_of link (some (body, remark)) = (body, percent_decode remark)

  unfoldable pub parse_shadowsocks : String → Result String Parts
  unfolding decode_b64 of_server percent_decode split_once rsplit_once before_first
  parse_shadowsocks raw = do
    no_fragment ← context (strip_prefix raw "ss://") "invalid ss URL"
    let (body, remark) = body_of no_fragment (split_once 35 no_fragment)
    let bare = before_first 63 body
    decoded ←
        (if contains_text bare "@"
          then ok bare
          else decoded_text bare "shadowsocks payload is not base64")
    (credential_raw, server) ←
        context (rsplit_once 64 decoded) "shadowsocks URL has no server separator"
    credential ←
        (if contains_text credential_raw ":"
          then ok (percent_decode credential_raw)
          else decoded_text credential_raw "shadowsocks user info is not base64")
    url ← l.parse_url (str_append "ss://placeholder@" server)
    of_server remark credential url

  unfoldable pub parse_link : String → Result String Parts
  unfolding parse_vmess parse_shadowsocks parse_url_proxy
  parse_link raw =
      if starts_with raw "vmess://"
      then parse_vmess raw
      else if starts_with raw "ss://"
      then parse_shadowsocks raw
      else parse_url_proxy raw

  -- The checks on what a parser returned, and the identity of the proxy.
  unfoldable pub accept : String → String → Parts → Result String ParsedProxy
  unfolding validate_address validate_transport_parameters
  accept raw source p = do
    ensure (in_list supported p.protocol) (str_append "unsupported protocol " p.protocol)
    ensure (not (is_empty p.address)) "proxy address is empty"
    validate_address l p.address
    ensure (ltb 0 p.port) "proxy port is invalid"
    validate_transport_parameters l p.normalized
    canonical ← l.to_vec p.normalized
    ok (record {
      source = source;
      raw_config = raw;
      protocol = p.protocol;
      address = p.address;
      port = p.port;
      remark = p.remark;
      normalized_config = p.normalized;
      config_hash = l.sha256_hex canonical;
    })

  unfoldable pub parse_share_url : String → String → Result String ParsedProxy
  unfolding trim parse_link accept
  parse_share_url raw source = parse_link (trim raw) >>= accept (trim raw) source
