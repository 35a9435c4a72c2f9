-- ===== src/Parser/Reality.antt =====
-- What a transport must have before Xray is given it.
use proxy_fleet.Common.{
  String, Bool, true, false, not, ◌≡◌, refl, List, [], ◌∷◌, Result, ok, ensure, ensure-ok, >>=-ok,
  >>-ok,
}
use proxy_fleet.Common.Text.{is_empty, to_lower}
use proxy_fleet.Parser.Json.{Value}
use proxy_fleet.Parser.Share.{in_list}
use proxy_fleet.Parser.Outbound.{
  Params, network_of, check_reality, public_key, stream_settings, secured, stream_json,
}

-- The transports that REALITY may stand on.
abbrev pub reality_networks : List String
reality_networks = "tcp" ∷ "grpc" ∷ "splithttp" ∷ "xhttp" ∷ []

not-true : (b : Bool) → not b ≡ true → b ≡ false
not-true true h = absurd (cc h)
not-true false h = refl

check_reality_lem :
    (network : String) (params : Params)
    → check_reality network params ≡ ok tt
    → (in_list reality_networks network ≡ true) × (is_empty (public_key params) ≡ false)
unfolding check_reality
check_reality_lem network params h =
    let last : Result String (Unit {0}) =
      ensure (not (is_empty (public_key params))) "REALITY public key is required" in
    let (known, key) = >>-ok _ last h in (ensure-ok _ _ known, not-true _ (ensure-ok _ _ key))

secured_lem :
    (net server : String) (params : Params) (v : Value)
    → secured "reality" params server net ≡ ok v
    → check_reality net params ≡ ok tt
unfolding secured
secured_lem net server params v h =
    (>>-ok (check_reality net params) (ok (stream_json net "reality" params server)) h).0

-- Where a transport under REALITY has settings, its network has one of the four names that REALITY
-- may stand on, and its public key is not empty.
pub stream_settings-reality :
    (network security : String) (params : Params) (server : String) (v : Value)
    → to_lower security ≡ "reality"
    → stream_settings network security params server ≡ ok v
    → (net : String) × (network_of (to_lower network) ≡ ok net)
      × (in_list reality_networks net ≡ true)
      × (is_empty (public_key params) ≡ false)
unfolding stream_settings
stream_settings-reality network security params server v e h =
    let (net, known, rest) =
      >>=-ok (network_of (to_lower network)) (secured (to_lower security) params server) h in
    let (allowed, key) =
      check_reality_lem net params (secured_lem net server params v (rw e at rest)) in
    (net, known, allowed, key)
