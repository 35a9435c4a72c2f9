-- ===== src/Parser/Accepted.antt =====
-- What holds of a proxy that the parser accepted.
use Prim.Native.String.{len}
use mathlib.Core.Path.{subst}
use proxy_fleet.Common.{
  ◌≤◌, ◌<◌, String, Bool, true, false, ◌≡◌, refl, ◌⊎◌, inl, inr, Result, ok, ensure, ensure-ok,
  >>=-ok, >>-ok, ◌>>=◌, ◌>>◌, ltb, Bool-cases, leb→le, ltb→lt, ok-injective, not,
}
use proxy_fleet.Common.Text.{is_empty, all_chars, trim}
use proxy_fleet.Parser.{ParsedProxy}
use proxy_fleet.Parser.Validate.{
  Libraries, validate_address, validate_transport_parameters, is_host_char,
}
use proxy_fleet.Parser.Share.{Parts, accept, supported, in_list, parse_link, parse_share_url}

module _ (l : Libraries) where
  -- An IP address, or a name of at most 253 bytes, all of them of a host name.
  abbrev pub IsAddress : String → Type 0
  IsAddress s = (l.is_ip s ≡ true) ⊎ ((len s ≤ 253) × (all_chars is_host_char s ≡ true))

  pub record IsAccepted (raw source : String) (p : ParsedProxy) : Type 0 where
    pub kept : (p.raw_config ≡ raw) × (p.source ≡ source)
    pub known : in_list supported p.protocol ≡ true
    pub named : is_empty p.address ≡ false
    pub addressed : IsAddress p.address
    pub port_positive : 0 < p.port
    pub transport : validate_transport_parameters l p.normalized_config ≡ ok tt
    pub identity :
        (canonical : l.Bytes) × (l.to_vec p.normalized_config ≡ ok canonical)
        × (p.config_hash ≡ l.sha256_hex canonical)

  validate_address-IsAddress : (s : String) → validate_address l s ≡ ok tt → IsAddress s
  unfolding validate_address
  validate_address-IsAddress s h = elim (Bool-cases (l.is_ip s)) [
    | inl e ↦ inl e
    | inr e ↦
        let (_, short, chars) = >>=-ok _ _ (rw e at h) in
        inr (leb→le _ _ (ensure-ok _ _ short), ensure-ok _ _ chars)
  ]

  not-true : (b : Bool) → not b ≡ true → b ≡ false
  not-true true h = absurd (cc h)
  not-true false h = refl

  accept-IsAccepted :
      (raw source : String) (parts : Parts) (p : ParsedProxy)
      → accept l raw source parts ≡ ok p
      → IsAccepted raw source p
  unfolding accept
  accept-IsAccepted raw source parts p h =
      let proxy : l.Bytes → ParsedProxy = λ canonical. record {
        source = source;
        raw_config = raw;
        protocol = parts.protocol;
        address = parts.address;
        port = parts.port;
        remark = parts.remark;
        normalized_config = parts.normalized;
        config_hash = l.sha256_hex canonical;
      } in
      let last : Result String ParsedProxy =
        l.to_vec parts.normalized >>= (λ canonical. ok (proxy canonical)) in
      let fourth : Result String ParsedProxy =
        validate_transport_parameters l parts.normalized >> last in
      let third : Result String ParsedProxy =
        ensure (ltb 0 parts.port) "proxy port is invalid" >> fourth in
      let second : Result String ParsedProxy = validate_address l parts.address >> third in
      let first : Result String ParsedProxy =
        ensure (not (is_empty parts.address)) "proxy address is empty" >> second in
      let (known, h1) = >>-ok _ first h in
      let (named, h2) = >>-ok _ second h1 in
      let (addressed, h3) = >>-ok _ third h2 in
      let (positive, h4) = >>-ok _ fourth h3 in
      let (transport, h5) = >>-ok _ last h4 in
      let (canonical, encoded, h6) = >>=-ok _ (λ canonical. ok (proxy canonical)) h5 in
      subst (IsAccepted raw source) (ok-injective h6) (record {
        kept = (refl, refl);
        known = ensure-ok _ _ known;
        named = not-true _ (ensure-ok _ _ named);
        addressed = validate_address-IsAddress parts.address addressed;
        port_positive = ltb→lt _ _ (ensure-ok _ _ positive);
        transport = transport;
        identity = (canonical, encoded, refl);
      })

  -- A link that is accepted keeps its trimmed text and its source. The proxy has a supported
  -- protocol, an address that is an IP address or a name of at most 253 bytes of a host name, a
  -- positive port, transport parameters that pass their checks, and as its identity the digest of
  -- its normalized configuration alone.
  pub parse_share_url-IsAccepted :
      (raw source : String) (p : ParsedProxy)
      → parse_share_url l raw source ≡ ok p
      → IsAccepted (trim raw) source p
  unfolding parse_share_url
  parse_share_url-IsAccepted raw source p h =
      let (parts, _, accepted) = >>=-ok (parse_link l (trim raw)) (accept l (trim raw) source) h in
      accept-IsAccepted (trim raw) source parts p accepted
