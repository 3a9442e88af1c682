-- ===== src/Quotation/Extraction/Client.antt =====
-- backend/internal/quotation/adapters/extraction/http_client.go: the connections and the redirects of
-- the client. net.SplitHostPort, the resolver and the dialer are parameters.
use cross_border_logistics.Prelude.{
  ℕ, String, Bool, true, false, Option, none, some, List, [], ◌∷◌, ◌≡◌, refl, arith, any, ltb,
  if◌then◌else◌, Result, ok, err, or_error, Option-cases, inl, inr,
}
use cross_border_logistics.Prelude.Checks.{◌>>=◌, ◌>>◌, fail_if}
use cross_border_logistics.Quotation.Domain.{
  QuotationError, unsafe_product_url, extraction_unavailable,
}
use cross_border_logistics.Quotation.Extraction.Hosts.{
  Ip, Net, HostMatcher, normalize_host, matches,
}
use cross_border_logistics.Quotation.Extraction.Safety.{Url, Urls, is_unsafe_ip, resolve, validate}

-- The first address that can be connected to.
unfoldable pub connect : (Ip → Bool) → List Ip → Option Ip
connect reachable [] = none
connect reachable (ip ∷ ips) =
    let rest = connect reachable ips in if reachable ip then some ip else rest

module _ (net : Net) (urls : Urls) (hosts : HostMatcher)
    (resolver : String → Option (List Ip)) where
  -- `DialContext` of `NewSafeHTTPClient`: the address that it connects to
  unfoldable pub dial :
      (String → Option (String × String)) → (Ip → Bool) → String → Result QuotationError Ip
  unfolding connect
  dial split_host_port reachable address = do
    (host, port) ← or_error (split_host_port address) unsafe_product_url
    addresses ← resolve net urls hosts resolver host
    or_error (connect reachable addresses) extraction_unavailable

  -- `CheckRedirect`
  unfoldable pub check_redirect : ℕ → ℕ → Url → Result QuotationError (Unit {0})
  check_redirect max_redirects via u = do
    fail_if (ltb max_redirects via) extraction_unavailable
    validate net urls hosts resolver u

  connect_safe :
      (reachable : Ip → Bool) (ips : List Ip) (ip : Ip)
      → any is_unsafe_ip ips ≡ false
      → connect reachable ips ≡ some ip
      → is_unsafe_ip ip ≡ false
  unfolding connect any
  connect_safe reachable [] ip safe h = absurd (ground arith)
  connect_safe reachable (x ∷ ips) ip safe h = ground (arith, connect_safe reachable ips ip)

  resolved_safe :
      (host : String) (ips : List Ip)
      → resolve net urls hosts resolver host ≡ ok ips
      → (matches net hosts (normalize_host net host) ≡ true) × (any is_unsafe_ip ips ≡ false)
  unfolding resolve any
  resolved_safe host ips h = (
    ground arith,
    elim (Option-cases (net.parse_ip (normalize_host net host))) [
      | inr (ip, is_ip) ↦ ground arith
      | inl is_name ↦ elim (Option-cases (resolver (normalize_host net host))) [
        | inl failed ↦ absurd (ground arith)
        | inr ([], answer) ↦ absurd (ground arith)
        | inr (a ∷ as', answer) ↦ ground arith
      ]
    ],
  )

  -- The parts of an address.
  dial_parts :
      (split_host_port : String → Option (String × String)) (reachable : Ip → Bool)
      (address : String) (ip : Ip)
      → dial split_host_port reachable address ≡ ok ip
      → (host : String) × (port : String) × (ips : List Ip) × (split_host_port address
          ≡ some (host, port))
        × (resolve net urls hosts resolver host ≡ ok ips)
        × (connect reachable ips ≡ some ip)
  unfolding dial
  dial_parts split_host_port reachable address ip h =
      elim (Option-cases (split_host_port address)) [
        | inl bad ↦ absurd (ground arith)
        | inr ((host, port), split) ↦ go host port split (resolve net urls hosts resolver host) refl
      ]
    where
      go :
          (host port : String)
          → split_host_port address ≡ some (host, port)
          → (r : Result QuotationError (List Ip)) → resolve net urls hosts resolver host ≡ r
          → (host : String) × (port : String) × (ips : List Ip) × (split_host_port address
              ≡ some (host, port))
            × (resolve net urls hosts resolver host ≡ ok ips)
            × (connect reachable ips ≡ some ip)
      go host port split (err e) r = absurd (ground arith)
      go host port split (ok ips) r = (host, port, ips, split, r, ground arith)

  -- Whatever the resolver answers, at this connection as at any other, a connection of the client is
  -- one to an address that is not refused, for a host that is allowed.
  pub dial_safe :
      (split_host_port : String → Option (String × String)) (reachable : Ip → Bool)
      (address : String) (ip : Ip)
      → dial split_host_port reachable address ≡ ok ip
      → (host : String) × (port : String) × (split_host_port address ≡ some (host, port))
        × (matches net hosts (normalize_host net host) ≡ true)
        × (is_unsafe_ip ip ≡ false)
  dial_safe split_host_port reachable address ip h =
      let (host, port, ips, split, resolved, connected) =
        dial_parts split_host_port reachable address ip h in
      let safe = resolved_safe host ips resolved in
      (host, port, split, safe.0, connect_safe reachable ips ip safe.1 connected)
