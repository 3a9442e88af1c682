-- ===== src/Tests/Extraction.antt =====
-- The extraction of products on concrete inputs.
use cross_border_logistics.Prelude.{
  String, true, false, Option, none, some, List, [], ◌∷◌, ◌≡◌, refl, any, ok, err,
}
use cross_border_logistics.Go.{trim_space, split_on}
use cross_border_logistics.Quotation.Domain.{unsafe_product_url}
use cross_border_logistics.Quotation.Extraction.Hosts.{
  Ip, v4, Net, HostMatcher, new_host_matcher, normalize_host, valid_hostname, matches,
  wildcard_base,
}
use cross_border_logistics.Quotation.Extraction.Safety.{
  Url, Urls, unsafe_v4, is_unsafe_ip, is_bad_port, parse_product_url, resolve, validate,
}
use cross_border_logistics.Quotation.Extraction.Addresses.{contains, internal, unsafe_v4-any}
use cross_border_logistics.Quotation.Extraction.Client.{dial, dial_safe}

abbrev net : Net
net = record { parse_ip = λ s. none; to_lower = λ s. s }

abbrev url : Url
url = record {
  scheme = "https";
  has_user = false;
  hostname = "store.example";
  port = "";
  text = "https://store.example/item";
}

abbrev urls : Urls
urls = record { parse = λ s. some url; size = λ s. 26 }

abbrev hosts : HostMatcher
hosts = record {
  exact = "store.example" ∷ [];
  wildcards = "shop.example" ∷ [];
  patterns = "store.example" ∷ "*.shop.example" ∷ [];
}

hosts_run : new_host_matcher net (" store.example. " ∷ "*.shop.example" ∷ []) ≡ some hosts
unfolding new_host_matcher normalize_host trim_space any valid_hostname wildcard_base split_on
hosts_run = refl

-- 10.0.0.1
unsafe_v4-any_example : unsafe_v4 0x0a000001 ≡ any (contains 0x0a000001) internal
unsafe_v4-any_example = unsafe_v4-any 0x0a000001

-- 93.184.216.34
abbrev public : Ip
public = v4 0x5db8d822

abbrev resolver : String → Option (List Ip)
resolver host = some (public ∷ [])

abbrev split_host_port : String → Option (String × String)
split_host_port s = some ("store.example", "443")

dial_run : dial net urls hosts resolver split_host_port (λ ip. true) "store.example:443" ≡ ok public
unfolding dial resolve matches any is_unsafe_ip normalize_host trim_space
dial_run = refl

dial_safe_example :
    (host : String) × (port : String) × (split_host_port "store.example:443" ≡ some (host, port))
    × (matches net hosts (normalize_host net host) ≡ true)
    × (is_unsafe_ip public ≡ false)
dial_safe_example =
    dial_safe net urls hosts resolver split_host_port (λ ip. true) "store.example:443" public
      dial_run

-- A name that resolves to a public and to a private address is refused.
validate_run :
    validate net urls hosts (λ host. some (public ∷ v4 0xc0a8010a ∷ [])) url
    ≡ err unsafe_product_url
unfolding validate parse_product_url resolve matches any is_unsafe_ip normalize_host trim_space
    valid_hostname is_bad_port split_on
validate_run = refl
