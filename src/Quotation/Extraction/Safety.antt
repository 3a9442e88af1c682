-- ===== src/Quotation/Extraction/Safety.antt =====
-- backend/internal/quotation/adapters/extraction/url_safety.go, and portForURLPort of http_client.go.
-- net/url and the resolver are parameters; the methods of net.IP are ranges of addresses.
use cross_border_logistics.Prelude.{
  ℕ, ◌/◌, ◌^◌, ◌+◌, ◌*◌, pos, String, Bool, true, false, not, ◌&&◌, ◌||◌, Option, none, some, List,
  [], ◌∷◌, any, ltb, ◌==◌, str_eq, leb_ℤ, if◌then◌else◌, Result, ok, err, or_error,
}
use cross_border_logistics.Prelude.Checks.{◌>>=◌, ◌>>◌, fail_if}
use cross_border_logistics.Go.{is_empty, trim_space}
use cross_border_logistics.Go.Numbers.{parse_int}
use cross_border_logistics.Quotation.Domain.{
  QuotationError, unsafe_product_url, extraction_unavailable,
}
use cross_border_logistics.Quotation.Extraction.Hosts.{
  Ip, v4, v6, Net, HostMatcher, normalize_host, valid_hostname, matches,
}

-- What is used of a `url.URL`; `text` is what `String` gives.
pub record Url : Type 0 where
  pub scheme : String
  pub has_user : Bool
  pub hostname : String
  pub port : String
  pub text : String

pub record Urls : Type 0 where
  -- `url.Parse`
  pub parse : String → Option Url
  -- the size of a text in bytes
  pub size : String → ℕ

-- The addresses of 32 bits: loopback, private, unspecified, link-local, multicast and metadata.
unfoldable pub unsafe_v4 : ℕ → Bool
unsafe_v4 n =
    n / 16777216 == 127
    || n / 16777216 == 10
    || n / 1048576 == 0xac1
    || n / 65536 == 0xc0a8
    || n == 0
    || n / 65536 == 0xa9fe
    || n / 256 == 0xe00000
    || n / 268435456 == 0xe
    || n == 0xa9fea9fe
    || n == 0x646464c8

-- The addresses of 128 bits.
unfoldable pub unsafe_v6 : ℕ → Bool
unsafe_v6 n =
    n == 1
    || n / 2 ^ 121 == 0x7e
    || n == 0
    || n / 2 ^ 118 == 0x3fa
    || n / 2 ^ 120 == 0xff
    || n == 0xfd000ec2 * 2 ^ 96 + 0x254

-- `isUnsafeIP`
unfoldable pub is_unsafe_ip : Ip → Bool
unfolding unsafe_v4 unsafe_v6
is_unsafe_ip (v4 n) = unsafe_v4 n
is_unsafe_ip (v6 n) = unsafe_v6 n

abbrev pub is_unsafe_host : Net → String → Bool
is_unsafe_host net host = elim (net.parse_ip host) [ none ↦ false | some ip ↦ is_unsafe_ip ip ]

-- `portForURLPort` gives an error.
unfoldable pub is_bad_port : String → Bool
is_bad_port port = not (is_empty port) && (elim (parse_int port) [
  | none ↦ true
  | some n ↦ not (leb_ℤ (pos 1) n) || not (leb_ℤ n (pos 65535))
])

module _ (net : Net) (urls : Urls) where
  -- `ParseProductURL`
  unfoldable pub parse_product_url : String → Result QuotationError Url
  unfolding is_bad_port
  parse_product_url text = do
    let raw = trim_space text
    fail_if (is_empty raw || ltb 2048 (urls.size raw)) unsafe_product_url
    u ← or_error (urls.parse raw) unsafe_product_url
    fail_if
        (not (str_eq u.scheme "https")
          || u.has_user
          || is_empty u.hostname
          || not (valid_hostname net (normalize_host net u.hostname)))
        unsafe_product_url
    fail_if (is_bad_port u.port) unsafe_product_url
    fail_if (is_unsafe_host net u.hostname) unsafe_product_url
    ok u

  -- `Resolve`, with what the resolver answers; `none` is an error
  unfoldable pub resolve :
      HostMatcher → (String → Option (List Ip)) → String → Result QuotationError (List Ip)
  resolve hosts resolver raw = do
    let host = normalize_host net raw
    fail_if (not (matches net hosts host)) unsafe_product_url
    elim (net.parse_ip host) as (λ x. Result QuotationError (List Ip)) [
      | some ip ↦ if is_unsafe_ip ip then err unsafe_product_url else ok (ip ∷ [])
      | none ↦ elim (resolver host) [
        | none ↦ err extraction_unavailable
        | some [] ↦ err extraction_unavailable
        | some (a ∷ addresses) ↦
            if any is_unsafe_ip (a ∷ addresses) then err unsafe_product_url else ok (a ∷ addresses)
      ]
    ]

  -- `Validate`
  unfoldable pub validate :
      HostMatcher → (String → Option (List Ip)) → Url → Result QuotationError (Unit {0})
  unfolding parse_product_url resolve
  validate hosts resolver u = do
    parsed ←
        or_error
          (elim (parse_product_url u.text) as (λ x. Option Url) [ err e ↦ none | ok p ↦ some p ])
          unsafe_product_url
    fail_if (not (matches net hosts parsed.hostname)) unsafe_product_url
    addresses ← resolve hosts resolver parsed.hostname
    ok tt
