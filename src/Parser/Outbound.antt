-- ===== src/Parser/Outbound.antt =====
-- `xray_outbound` of src/src/parser/mod.rs: the Xray configuration of a proxy.
use Prim.Native.String.{◌++◌ as str_append}
use proxy_fleet.Common.{
  ℕ, String, false, not, ◌&&◌, Option, none, some, List, [], ◌∷◌, ◌++◌, filter, map, str_eq,
  unwrap_or, or_else, if◌then◌else◌, Result, ok, err, ensure, context, ◌>>=◌, ◌>>◌,
}
use proxy_fleet.Common.Text.{trim, to_lower, split, is_empty}
use proxy_fleet.Common.BTree.{get, insert}
use proxy_fleet.Parser.{ParsedProxy}
use proxy_fleet.Parser.Json.{
  Value, Members, no_members, member, str, num, bool, as_str, as_object, json, json_list, get_str,
  member_of, member_str,
}
use proxy_fleet.Parser.Json.{get as get_value}
use proxy_fleet.Parser.Validate.{Libraries, validate_user_id}
use proxy_fleet.Parser.Share.{in_list, number_or_string_u16}

abbrev pub Params : Type 0
Params = List (String × String)

abbrev pub param : Params → String → Option String
param params key = get (to_lower key) params

-- The first of two parameters that is there.
abbrev pub either : Params → String → String → Option String
either params a b = or_else (param params a) (param params b)

-- `value_string`, and `params`: the text members, under keys of small letters
abbrev pub value_string : Value → String → String
value_string v key = unwrap_or (get_str v key) ""

abbrev add_text : String → Option String → Params → Params
add_text key none params = params
add_text key (some value) params = insert (to_lower key) value params

unfoldable pub text_members : Members → Params → Params
unfolding insert to_lower
text_members no_members params = params
text_members (member k v rest) params = text_members rest (add_text k (as_str v) params)

abbrev object_of : Option Value → Members
object_of none = no_members
object_of (some v) = unwrap_or (as_object v) no_members

unfoldable pub params_of : Value → Params
unfolding text_members
params_of v = text_members (object_of (get_value v "params")) []

-- The transports, under the names that they are given.
unfoldable pub network_of : String → Result String String
network_of name =
    if in_list ("ws" ∷ "websocket" ∷ []) name
    then ok "ws"
    else if in_list ("tcp" ∷ "raw" ∷ []) name
    then ok "tcp"
    else if in_list ("kcp" ∷ "mkcp" ∷ []) name
    then ok "kcp"
    else if in_list ("grpc" ∷ "httpupgrade" ∷ "splithttp" ∷ "xhttp" ∷ "quic" ∷ []) name
    then ok name
    else err (str_append "unsupported transport network " name)

-- `.filter(|value| !value.is_empty())`, and the member for what is left
abbrev optional : String → (String → Value) → Option String → List (String × Value)
optional key show none = []
optional key show (some value) = if is_empty value then [] else (key, show value) ∷ []

abbrev alpn_list : String → Value
alpn_list value =
    json_list (map str (filter (λ part. not (is_empty part)) (map trim (split 44 value))))

unfoldable pub tls_settings : Params → String → Value
unfolding trim split
tls_settings params server = json (
    ("serverName", str (unwrap_or (param params "sni") server))
    ∷ (optional "pinnedPeerCertSha256" str (either params "pcs" "pinnedpeercertsha256")
        ++ optional "verifyPeerCertByName" str (either params "vcn" "verifypeercertbyname")
        ++ optional "fingerprint" str (param params "fp")
        ++ optional "alpn" alpn_list (param params "alpn")))

unfoldable pub public_key : Params → String
public_key params = unwrap_or (either params "pbk" "password") ""

unfoldable pub reality_settings : Params → String → Value
unfolding public_key
reality_settings params server = json (
    ("serverName", str (unwrap_or (param params "sni") server))
    ∷ ("fingerprint", str (unwrap_or (param params "fp") "chrome"))
    ∷ ("publicKey", str (public_key params))
    ∷ ("shortId", str (unwrap_or (param params "sid") ""))
    ∷ ("spiderX", str (unwrap_or (param params "spx") ""))
    ∷ [])

unfoldable pub security_members : String → Params → String → List (String × Value)
unfolding tls_settings reality_settings
security_members security params server =
    if str_eq security "tls"
    then ("security", str "tls") ∷ ("tlsSettings", tls_settings params server) ∷ []
    else if str_eq security "reality"
    then ("security", str "reality") ∷ ("realitySettings", reality_settings params server) ∷ []
    else []

abbrev host_and_path : Params → String → Value
host_and_path params server = json (
    ("host", str (unwrap_or (param params "host") server))
    ∷ ("path", str (unwrap_or (param params "path") "/"))
    ∷ [])

unfoldable pub network_members : String → Params → String → List (String × Value)
network_members network params server =
    if str_eq network "ws"
    then ("wsSettings", host_and_path params server) ∷ []
    else if str_eq network "grpc"
    then (
      "grpcSettings",
      json (("serviceName", str (unwrap_or (param params "servicename") "")) ∷ []),
    )
      ∷ []
    else if str_eq network "httpupgrade"
    then ("httpupgradeSettings", host_and_path params server) ∷ []
    else if str_eq network "splithttp"
    then ("splithttpSettings", host_and_path params server) ∷ []
    else if str_eq network "xhttp"
    then ("xhttpSettings", host_and_path params server) ∷ []
    else if str_eq network "kcp"
    then (
      "kcpSettings",
      json (
          ("header", json (("type", str (unwrap_or (param params "headertype") "none")) ∷ []))
          ∷ []),
    )
      ∷ []
    else []

-- What REALITY asks of the transport and of the parameters.
unfoldable pub check_reality : String → Params → Result String (Unit {0})
unfolding public_key
check_reality network params = do
  ensure (in_list ("tcp" ∷ "grpc" ∷ "splithttp" ∷ "xhttp" ∷ []) network)
      (str_append "REALITY is incompatible with transport " network)
  ensure (not (is_empty (public_key params))) "REALITY public key is required"

abbrev pub stream_json : String → String → Params → String → Value
stream_json net sec params server = json (
    ("network", str net)
    ∷ (security_members sec params server ++ network_members net params server))

unfoldable pub secured : String → Params → String → String → Result String Value
unfolding check_reality security_members network_members
secured sec params server net = do
  ensure (in_list ("" ∷ "none" ∷ "tls" ∷ "reality" ∷ []) sec)
      (str_append "unsupported transport security " sec)
  (if str_eq sec "reality" then check_reality net params else ok tt)
  ok (stream_json net sec params server)

unfoldable pub stream_settings : String → String → Params → String → Result String Value
unfolding network_of secured to_lower
stream_settings network security params server =
    network_of (to_lower network) >>= secured (to_lower security) params server

abbrev unmuxed : Value
unmuxed = json (("enabled", bool false) ∷ [])

-- The outbound of a protocol with its settings, and the one with a transport as well.
abbrev outbound : String → Value → List (String × Value) → Value
outbound protocol settings rest =
    json (("tag", str "proxy") ∷ ("protocol", str protocol) ∷ ("settings", settings) ∷ rest)

abbrev streamed : String → Value → Value → Value
streamed protocol settings stream =
    outbound protocol settings (("streamSettings", stream) ∷ ("mux", unmuxed) ∷ [])

abbrev only : Value → Value
only v = json_list (v ∷ [])

abbrev vnext : ParsedProxy → List (String × Value) → Value
vnext proxy user = json (
    (
      "vnext",
      only (
          json (
            ("address", str proxy.address)
            ∷ ("port", num proxy.port)
            ∷ ("users", only (json user))
            ∷ [])),
    )
    ∷ [])

abbrev server : ParsedProxy → List (String × Value) → Value
server proxy rest = json (
    ("servers", only (json (("address", str proxy.address) ∷ ("port", num proxy.port) ∷ rest)))
    ∷ [])

abbrev vmess_keys : List String
vmess_keys =
    "sni" ∷ "host" ∷ "path" ∷ "serviceName" ∷ "fp" ∷ "alpn" ∷ "pcs" ∷ "vcn" ∷ "pbk" ∷ "sid" ∷ "spx"
    ∷ "headerType" ∷ []

unfoldable pub vmess_values : List String → Members → Params → Params
unfolding insert to_lower
vmess_values [] payload values = values
vmess_values (key ∷ keys) payload values =
    vmess_values keys payload (add_text key (member_str key payload) values)

abbrev payload_of : Option Value → Option Members
payload_of none = none
payload_of (some v) = as_object v

abbrev alter_id : Option Value → ℕ
alter_id none = 0
alter_id (some v) = unwrap_or (number_or_string_u16 v) 0

module _ (l : Libraries) where
  unfoldable pub xray_vmess : ParsedProxy → Result String Value
  unfolding validate_user_id stream_settings vmess_values number_or_string_u16
  xray_vmess proxy = do
    payload ←
        context (payload_of (get_value proxy.normalized_config "payload"))
          "invalid vmess normalized config"
    let id = unwrap_or (member_str "id" payload) ""
    validate_user_id l id
    stream ←
        stream_settings (unwrap_or (member_str "net" payload) "tcp")
          (unwrap_or (member_str "tls" payload) "none") (vmess_values vmess_keys payload [])
          proxy.address
    ok (
        streamed "vmess"
          (vnext proxy (
            ("id", str id)
            ∷ ("alterId", num (alter_id (member_of "aid" payload)))
            ∷ ("security", str (unwrap_or (member_str "scy" payload) "auto"))
            ∷ ("level", num 0)
            ∷ []))
          stream)

  unfoldable pub xray_vless : ParsedProxy → Result String Value
  unfolding validate_user_id stream_settings params_of
  xray_vless proxy = do
    let user = value_string proxy.normalized_config "user"
    validate_user_id l user
    let params = params_of proxy.normalized_config
    stream ←
        stream_settings (unwrap_or (param params "type") "tcp")
          (unwrap_or (param params "security") "none") params proxy.address
    ok (
        streamed "vless"
          (vnext proxy (
            ("id", str user)
            ∷ ("encryption", str (unwrap_or (param params "encryption") "none"))
            ∷ ("flow", str (unwrap_or (param params "flow") ""))
            ∷ ("level", num 0)
            ∷ []))
          stream)

  unfoldable pub xray_trojan : ParsedProxy → Result String Value
  unfolding stream_settings params_of
  xray_trojan proxy = do
    let password = value_string proxy.normalized_config "user"
    ensure (not (is_empty password)) "trojan password is empty"
    let params = params_of proxy.normalized_config
    stream ←
        stream_settings (unwrap_or (param params "type") "tcp")
          (unwrap_or (param params "security") "tls") params proxy.address
    ok (
        streamed "trojan" (server proxy (("password", str password) ∷ ("level", num 0) ∷ []))
          stream)

  unfoldable pub xray_shadowsocks : ParsedProxy → Value
  xray_shadowsocks proxy =
      outbound "shadowsocks"
        (server proxy (
          ("method", str (value_string proxy.normalized_config "method"))
          ∷ ("password", str (value_string proxy.normalized_config "password"))
          ∷ ("level", num 0)
          ∷ []))
        []

  unfoldable pub xray_socks : ParsedProxy → Value
  xray_socks proxy =
      let user = value_string proxy.normalized_config "user" in
      let password = value_string proxy.normalized_config "password" in
      let users =
        if is_empty user && is_empty password
        then []
        else json (("user", str user) ∷ ("pass", str password) ∷ []) ∷ [] in
      outbound "socks" (server proxy (("users", json_list users) ∷ [])) []

  unfoldable pub xray_outbound : ParsedProxy → Result String Value
  unfolding xray_vmess xray_vless xray_trojan xray_shadowsocks xray_socks
  xray_outbound proxy =
      if str_eq proxy.protocol "vless"
      then xray_vless proxy
      else if str_eq proxy.protocol "trojan"
      then xray_trojan proxy
      else if str_eq proxy.protocol "ss"
      then ok (xray_shadowsocks proxy)
      else if in_list ("socks" ∷ "socks5" ∷ []) proxy.protocol
      then ok (xray_socks proxy)
      else if str_eq proxy.protocol "vmess"
      then xray_vmess proxy
      else err (str_append "unsupported protocol " proxy.protocol)
