-- ===== src/Parser/Remark.antt =====
-- Links that differ in the display name.
use text.Mathlib.Text.{starts_with}
use proxy_fleet.Common.{String, false, ◌≡◌, refl, Option, Result, ok, err, ◌>>=◌, arith, unwrap_or}
use proxy_fleet.Common.Text.{trim}
use proxy_fleet.Parser.{ParsedProxy}
use proxy_fleet.Parser.Validate.{Url, Libraries}
use proxy_fleet.Parser.Share.{Parts, accept, of_url, parse_url_proxy, parse_link, parse_share_url}

pub map_ok {ℓ} : {A : Type ℓ} → (A → A) → Result String A → Result String A
map_ok g (ok a) = ok (g a)
map_ok g (err e) = err e

module _ (l : Libraries) where
  of_url-fragment :
      (u : Url) (fragment : Option String)
      → of_url l (record u { fragment = fragment })
        ≡ map_ok (λ (p : Parts). record p { remark = unwrap_or fragment "" }) (of_url l u)
  unfolding of_url map_ok
  of_url-fragment u fragment = ground arith

  accept-remark :
      (raw other source remark : String) (parts : Parts)
      → accept l other source (record parts { remark = remark })
        ≡ map_ok
            (λ (p : ParsedProxy). record p { remark = remark; raw_config = other })
            (accept l raw source parts)
  unfolding accept map_ok
  accept-remark raw other source remark parts = ground arith

  -- A link that is read as a URL.
  abbrev pub IsUrlLink : String → Url → Type 0
  IsUrlLink raw u =
      (starts_with (trim raw) "vmess://" ≡ false)
      × (starts_with (trim raw) "ss://" ≡ false)
      × (l.parse_url (trim raw) ≡ ok u)

  parse_link-url : (raw : String) (u : Url) → IsUrlLink raw u → parse_link l (trim raw) ≡ of_url l u
  unfolding parse_link parse_url_proxy
  parse_link-url raw u h = rw (h.0, h.1, h.2) refl

  -- Two links that are read as URLs that differ in the fragment only are accepted or rejected
  -- together, for the same reason, and the proxies differ in the remark and the raw text only: they
  -- have the same identity.
  pub remark_is_no_identity :
      (raw other source : String) (u : Url) (fragment : Option String)
      → IsUrlLink raw u
      → IsUrlLink other (record u { fragment = fragment })
      → parse_share_url l other source
        ≡ map_ok
            (λ (p : ParsedProxy). record p {
              remark = unwrap_or fragment "";
              raw_config = trim other;
            })
            (parse_share_url l raw source)
  unfolding parse_share_url map_ok
  remark_is_no_identity raw other source u fragment h k =
      rw
        (
          parse_link-url raw u h,
          parse_link-url other (record u { fragment = fragment }) k,
          of_url-fragment u fragment,
        )
        (either (of_url l u))
    where
      either :
          (parsed : Result String Parts)
          → (map_ok (λ (p : Parts). record p { remark = unwrap_or fragment "" }) parsed
              >>= accept l (trim other) source)
            ≡ map_ok
                (λ (p : ParsedProxy). record p {
                  remark = unwrap_or fragment "";
                  raw_config = trim other;
                })
                (parsed >>= accept l (trim raw) source)
      either (ok parts) = accept-remark (trim raw) (trim other) source (unwrap_or fragment "") parts
      either (err e) = refl
