-- ===== src/Quotation/Extraction/Config.antt =====
-- backend/internal/quotation/adapters/extraction/config.go. The environment and time.ParseDuration are
-- parameters; a duration is in nanoseconds.
use cross_border_logistics.Prelude.{
  ℤ, pos, String, Bool, true, false, not, ◌&&◌, ◌||◌, Option, none, some, List, [], leb_ℤ, ltb_ℤ,
  str_eq, if◌then◌else◌,
}
use cross_border_logistics.Go.{is_empty, trim_space, split_on}
use cross_border_logistics.Go.Numbers.{parse_int}
use cross_border_logistics.Quotation.Extraction.Hosts.{Net, new_host_matcher}

pub record Config : Type 0 where
  pub mode : String
  pub allowed_hosts : List String
  pub fetch_timeout : ℤ
  pub max_response_bytes : ℤ
  pub max_redirects : ℤ

-- `valueOrDefault`
unfoldable pub value_or_default : String → String → String
value_or_default value fallback = if is_empty (trim_space value) then fallback else value

-- `splitHosts`
unfoldable pub split_hosts : String → List String
split_hosts raw = if is_empty (trim_space raw) then [] else split_on b',' raw

-- A number from a variable that passes a test, or the default where the variable is blank; `none` is
-- an error.
unfoldable pub setting : (String → Option ℤ) → (ℤ → Bool) → ℤ → String → Option ℤ
setting parse test fallback value =
    let raw = trim_space value in
    if is_empty raw
    then some fallback
    else elim (parse raw) [ none ↦ none | some n ↦ if test n then some n else none ]

abbrev no_hosts : List String → Bool
no_hosts [] = true
no_hosts _ = false

-- The hosts of a mode: there is at least one in hybrid mode.
unfoldable pub hosts_of : Net → String → String → Option (List String)
unfolding split_hosts
hosts_of net mode raw = elim (new_host_matcher net (split_hosts raw)) [
  | none ↦ none
  | some m ↦ if str_eq mode "hybrid" && no_hosts m.patterns then none else some m.patterns
]

-- `LoadConfig`
unfoldable pub load_config : Net → (String → Option ℤ) → (String → String) → Option Config
unfolding value_or_default setting hosts_of
load_config net parse_duration getenv =
    let mode =
      net.to_lower (trim_space (value_or_default (getenv "PRODUCT_EXTRACTOR_MODE") "demo")) in
    if not (str_eq mode "demo" || str_eq mode "hybrid")
    then none
    else elim (setting parse_duration (ltb_ℤ (pos 0)) (pos 1200000000)
        (getenv "PRODUCT_FETCH_TIMEOUT")) [
          | none ↦ none
          | some timeout ↦
              elim (setting parse_int (ltb_ℤ (pos 0)) (pos 1048576)
                (getenv "PRODUCT_MAX_RESPONSE_BYTES")) [
                  | none ↦ none
                  | some bytes ↦
                      elim (setting parse_int (leb_ℤ (pos 0)) (pos 3)
                        (getenv "PRODUCT_MAX_REDIRECTS")) [
                          | none ↦ none
                          | some redirects ↦
                              elim (hosts_of net mode (getenv "PRODUCT_ALLOWED_HOSTS")) [
                                | none ↦ none
                                | some hosts ↦ some (record {
                                  mode = mode;
                                  allowed_hosts = hosts;
                                  fetch_timeout = timeout;
                                  max_response_bytes = bytes;
                                  max_redirects = redirects;
                                })
                              ]
                        ]
                ]
        ]
