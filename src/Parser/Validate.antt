-- ===== src/Parser/Validate.antt =====
-- The structural checks of src/src/parser/mod.rs: `validate_user_id`, `validate_address` and
-- `validate_transport_parameters`; and what the parser uses of other libraries.
use Prim.Native.String.{len}
use Prim.Native.Char.{Char, code}
use proxy_fleet.Common.{
  ℕ, ◌%◌, String, Bool, not, ◌&&◌, ◌||◌, ◌==◌, Option, none, some, List, [], ◌∷◌, leb, ltb, all,
  filter, str_eq, unwrap_or, or_else, if◌then◌else◌, Result, ok, ensure, ◌>>◌,
}
use proxy_fleet.Common.Text.{
  trim, to_lower, split, all_chars, is_alphanumeric, is_graphic, is_hexdigit, is_empty,
}
use proxy_fleet.Parser.Json.{Value, Members, get, as_object, as_str, member_of, member_str}

-- What `url::Url` tells of a URL.
pub record Url : Type 0 where
  pub scheme : String
  pub username : String
  pub password : Option String
  pub host_str : Option String
  pub port : Option ℕ
  pub path : String
  pub query_pairs : List (String × String)
  pub fragment : Option String

pub record Libraries : Type 1 where
  pub Bytes : Type 0
  -- `url::Url::parse`, and the first key that `url::form_urlencoded::parse` finds
  pub parse_url : String → Result String Url
  pub form_key : String → Option String
  -- `uuid::Uuid::parse_str(..).is_ok()` and `IpAddr::from_str(..).is_ok()`
  pub is_uuid : String → Bool
  pub is_ip : String → Bool
  -- the decoders of the base64 crate, `String::from_utf8`, and `serde_json::from_slice` of a map
  pub standard : String → Option Bytes
  pub url_safe_no_pad : String → Option Bytes
  pub from_utf8 : Bytes → Option String
  pub read_map : Bytes → Option (List (String × Value))
  -- `serde_json::to_vec`, and the hexadecimal SHA-256 digest
  pub to_vec : Value → Result String Bytes
  pub sha256_hex : Bytes → String

-- `eq_ignore_ascii_case`
abbrev pub same_letters : String → String → Bool
same_letters a b = str_eq (to_lower a) (to_lower b)

-- A byte of a host name: a letter, a digit, or one of `.`, `-` and `_`.
abbrev pub is_host_char : Char → Bool
is_host_char c = is_alphanumeric c || code c == 46 || code c == 45 || code c == 95

abbrev pub is_key_char : Char → Bool
is_key_char c = is_alphanumeric c || code c == 45 || code c == 95

module _ (l : Libraries) where
  unfoldable pub validate_user_id : String → Result String (Unit {0})
  unfolding trim
  validate_user_id value = do
    ensure (not (is_empty (trim value))) "proxy user id is empty"
    if l.is_uuid value
        then ok tt
        else ensure (ltb (len value) 30) "custom proxy user id must be shorter than 30 bytes"

  unfoldable pub validate_address : String → Result String (Unit {0})
  validate_address address = if l.is_ip address then ok tt else (do
    ensure (leb (len address) 253) "proxy hostname is too long"
    ensure (all_chars is_host_char address) "proxy hostname is invalid")

  unfoldable pub validate_addresses : List String → Result String (Unit {0})
  unfolding validate_address
  validate_addresses [] = ok tt
  validate_addresses (h ∷ rest) = do validate_address h; validate_addresses rest

  abbrev hostnames : Option String → List String
  hostnames none = []
  hostnames (some value) = filter (λ part. not (is_empty part)) (split 44 value)

  -- A token of `alpn`; the split leaves no comma in it.
  abbrev pub is_token : String → Bool
  is_token token =
      not (is_empty token)
      && leb (len token) 255
      && all_chars (λ c. is_graphic c && not (code c == 44)) token

  unfoldable pub validate_alpn : Option String → Result String (Unit {0})
  unfolding split
  validate_alpn none = ok tt
  validate_alpn (some alpn) = ensure (all is_token (split 44 alpn)) "ALPN contains an invalid token"

  unfoldable pub validate_short_id : Option String → Result String (Unit {0})
  validate_short_id none = ok tt
  validate_short_id (some short_id) =
      ensure (leb (len short_id) 16 && len short_id % 2 == 0 && all_chars is_hexdigit short_id)
        "REALITY short id is invalid"

  abbrev text : Option Value → String
  text none = ""
  text (some v) = unwrap_or (as_str v) ""

  unfoldable pub validate_reality : Members → Result String (Unit {0})
  unfolding validate_short_id
  validate_reality params =
      let key = text (or_else (member_of "pbk" params) (member_of "password" params)) in
      ensure (leb 32 (len key) && all_chars is_key_char key) "REALITY public key is invalid"
      >> validate_short_id (member_str "sid" params)

  unfoldable pub validate_params : Members → Result String (Unit {0})
  unfolding validate_addresses validate_alpn validate_reality split to_lower
  validate_params params = do
    validate_addresses (hostnames (member_str "sni" params))
    validate_addresses (hostnames (member_str "host" params))
    validate_alpn (member_str "alpn" params)
    if same_letters (unwrap_or (member_str "security" params) "none") "reality"
        then validate_reality params
        else ok tt

  abbrev object_at : Option Value → Option Members
  object_at none = none
  object_at (some v) = as_object v

  abbrev checked_params : Option Members → Result String (Unit {0})
  checked_params none = ok tt
  checked_params (some params) = validate_params params

  unfoldable pub validate_transport_parameters : Value → Result String (Unit {0})
  unfolding validate_params
  validate_transport_parameters config = checked_params (object_at (get config "params"))
