-- ===== src/Quotation/Extraction/Hosts.antt =====
-- backend/internal/quotation/adapters/extraction/host_matcher.go. net.ParseIP and strings.ToLower are
-- parameters. Texts beyond ASCII are counted by characters and not by bytes, but are no hostnames.
use Prim.Native.String.{◌++◌ as append}
use Prim.Native.Char.{code}
use cross_border_logistics.Prelude.{
  ℕ, String, Bool, true, false, not, ◌&&◌, ◌||◌, Option, none, some, List, [], ◌∷◌, ◌++◌, any, leb,
  ltb, ◌==◌, str_eq, if◌then◌else◌,
}
use cross_border_logistics.Go.{is_empty, trim_space, split_on}
use cross_border_logistics.Go.Numbers.Digits.{chars}

-- An address: of 32 bits, also where it is written as one of 128 bits, or of 128 bits.
pub data Ip : Type 0 where
  v4 : ℕ → Ip
  v6 : ℕ → Ip

-- What is called outside the repository.
pub record Net : Type 0 where
  -- `net.ParseIP`; `none` is nil
  pub parse_ip : String → Option Ip
  -- `strings.ToLower`
  pub to_lower : String → String

pub record HostMatcher : Type 0 where
  pub exact : List String
  pub wildcards : List String
  pub patterns : List String

-- `strings.TrimSuffix(s, ".")`
unfoldable pub trim_dot : String → String
trim_dot String.[] = String.[]
trim_dot (String.◌∷◌ c s) =
    let rest = trim_dot s in if is_empty s && code c == b'.' then String.[] else String.◌∷◌ c rest

-- `normalizeHost`
unfoldable pub normalize_host : Net → String → String
unfolding trim_dot
normalize_host net host = trim_dot (net.to_lower (trim_space host))

abbrev host_letter : ℕ → Bool
host_letter c = leb b'a' c && leb c b'z' || leb b'0' c && leb c b'9' || c == b'-'

all_letters : String → Bool
all_letters String.[] = true
all_letters (String.◌∷◌ c s) = host_letter (code c) && all_letters s

starts_with : ℕ → String → Bool
starts_with k String.[] = false
starts_with k (String.◌∷◌ c s) = code c == k

ends_with : ℕ → String → Bool
ends_with k String.[] = false
ends_with k (String.◌∷◌ c s) = let rest = ends_with k s in if is_empty s then code c == k else rest

unfoldable pub valid_label : String → Bool
unfolding all_letters starts_with ends_with
valid_label label =
    not (is_empty label || ltb 63 (chars label) || starts_with b'-' label || ends_with b'-' label)
    && all_letters label

-- `validHostname`
unfoldable pub valid_hostname : Net → String → Bool
unfolding valid_label
valid_hostname net host = elim (net.parse_ip host) [
  | some ip ↦ true
  | none ↦
      not (is_empty host || ltb 253 (chars host) || str_eq host "localhost")
      && not (any (λ label. not (valid_label label)) (split_on b'.' host))
]

-- One of the characters of `/:@?#`
abbrev is_special : ℕ → Bool
is_special c = c == b'/' || c == b':' || c == b'@' || c == b'?' || c == b'#'

contains_special : String → Bool
contains_special String.[] = false
contains_special (String.◌∷◌ c s) = is_special (code c) || contains_special s

contains_star : String → Bool
contains_star String.[] = false
contains_star (String.◌∷◌ c s) = code c == b'*' || contains_star s

dot_behind : String → Option String
dot_behind String.[] = none
dot_behind (String.◌∷◌ c s) = if code c == b'.' then some s else none

-- The base of a text that starts with `*.`
unfoldable pub wildcard_base : String → Option String
unfolding dot_behind
wildcard_base String.[] = none
wildcard_base (String.◌∷◌ c s) = if code c == b'*' then dot_behind s else none

-- One more pattern; `none` is an error.
unfoldable pub add_pattern : Net → String → HostMatcher → Option HostMatcher
unfolding contains_special contains_star wildcard_base valid_hostname
add_pattern net pattern m =
    if is_empty pattern || contains_special pattern then none else elim (wildcard_base pattern) [
      | some base ↦ elim (net.parse_ip base) [
        | some ip ↦ none
        | none ↦
            if valid_hostname net base
            then some (record m {
              wildcards = m.wildcards ++ base ∷ [];
              patterns = m.patterns ++ append "*." base ∷ [];
            })
            else none
      ]
      | none ↦
          if contains_star pattern || not (valid_hostname net pattern)
          then none
          else if any (str_eq pattern) m.exact
          then some m
          else some
              (record m { exact = m.exact ++ pattern ∷ []; patterns = m.patterns ++ pattern ∷ [] })
    ]

unfoldable pub add_patterns : Net → List String → HostMatcher → Option HostMatcher
unfolding add_pattern
add_patterns net [] m = some m
add_patterns net (raw ∷ rest) m = elim (add_pattern net (normalize_host net raw) m) [
  | none ↦ none
  | some m' ↦ add_patterns net rest m'
]

-- `NewHostMatcher`
unfoldable pub new_host_matcher : Net → List String → Option HostMatcher
unfolding add_patterns
new_host_matcher net patterns =
    add_patterns net patterns (record { exact = []; wildcards = []; patterns = [] })

-- `strings.HasSuffix`
unfoldable pub has_suffix : String → String → Bool
has_suffix suffix String.[] = is_empty suffix
has_suffix suffix (String.◌∷◌ c s) = str_eq suffix (String.◌∷◌ c s) || has_suffix suffix s

-- `Match`
unfoldable pub matches : Net → HostMatcher → String → Bool
unfolding has_suffix
matches net m raw =
    let host = normalize_host net raw in
    any (str_eq host) m.exact
    || any (λ base. has_suffix (append "." base) host && not (str_eq host base)) m.wildcards
