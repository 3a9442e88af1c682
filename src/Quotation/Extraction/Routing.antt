-- ===== src/Quotation/Extraction/Routing.antt =====
-- backend/internal/quotation/adapters/extraction/routing_extractor.go. Both extractors are parameters.
use cross_border_logistics.Prelude.{String, ◌||◌, str_eq, if◌then◌else◌, Result, ok, err}
use cross_border_logistics.Quotation.Domain.{QuotationError, extraction_unavailable}
use cross_border_logistics.Quotation.Service.{ExtractedProduct}
use cross_border_logistics.Quotation.Extraction.Hosts.{Net, HostMatcher, normalize_host, matches}
use cross_border_logistics.Quotation.Extraction.Safety.{Urls, parse_product_url}

-- `ProductExtractor`
abbrev pub Extractor : Type 0
Extractor = String → Result QuotationError ExtractedProduct

-- `Extract`
unfoldable pub extract : Net → Urls → Extractor → Extractor → HostMatcher → Extractor
extract net urls demo http real_hosts raw = elim (parse_product_url net urls raw) [
  | err e ↦ err e
  | ok u ↦
      let host = normalize_host net u.hostname in
      if str_eq host "shop.example" || str_eq host "example.com"
      then demo raw
      else if matches net real_hosts host
      then http raw
      else err extraction_unavailable
]
