-- ===== src/Admin/Service/Answer.antt =====
-- `Execute` keeps valid rates valid.
use cross_border_logistics.Prelude.{
  ◌||◌, ℤ, String, Bool, true, false, none, List, [], ◌∷◌, ◌++◌, ◌≡◌, refl, sym, ap, ◌∙◌, arith,
  any, str_eq, str_leb, if◌then◌else◌, append-nil, append_assoc, insert_by, sort_by, All, ok,
}
use cross_border_logistics.Go.{is_empty}
use cross_border_logistics.Admin.Domain.{
  Rates, rate_of, put, SystemRates, code_of, no_items, check_currency, check_currencies, validate,
}
use cross_border_logistics.Admin.Currencies.{distinct_codes}
use cross_border_logistics.Admin.Service.{under_codes, normalised}

module _ {ℓ κ} {A : Type ℓ} (P : A → Type κ) (before : A → A → Bool) where
  All-insert_by : (x : A) (xs : List A) → P x → All P xs → All P (insert_by before x xs)
  unfolding insert_by
  All-insert_by x [] p ps = (p, tt)
  All-insert_by x (y ∷ ys) p ps = either (before x y) (p, ps) (ps.0, All-insert_by x ys p ps.1)
    where
      either :
          (b : Bool)
          → All P (x ∷ y ∷ ys)
          → All P (y ∷ insert_by before x ys)
          → All P (if b then x ∷ y ∷ ys else y ∷ insert_by before x ys)
      either true first second = first
      either false first second = second

  All-sort_by : (xs : List A) → All P xs → All P (sort_by before xs)
  unfolding sort_by
  All-sort_by [] ps = tt
  All-sort_by (x ∷ xs) ps = All-insert_by x (sort_by before xs) ps.0 (All-sort_by xs ps.1)

no_items-insert_by :
    (before : String → String → Bool) (x : String) (xs : List String)
    → no_items (insert_by before x xs) ≡ false
unfolding insert_by
no_items-insert_by before x [] = refl
no_items-insert_by before x (y ∷ ys) = ground arith

no_items-sort_by :
    (before : String → String → Bool) (xs : List String)
    → no_items xs ≡ false
    → no_items (sort_by before xs) ≡ false
unfolding sort_by
no_items-sort_by before [] h = h
no_items-sort_by before (x ∷ xs) h = no_items-insert_by before x (sort_by before xs)

-- A list of entries that is a map under codes: no key twice, and each key its own code.
abbrev pub IsMap : (String → String) → Rates → Type 0
IsMap to_upper [] = Unit {0}
IsMap to_upper (e ∷ rates) =
    (code_of to_upper e.0 ≡ e.0)
    × All (λ (x : String × ℤ). str_eq e.0 x.0 ≡ false) rates
    × IsMap to_upper rates

-- A key that is not there is put behind the others.
put_new :
    (code : String) (rate : ℤ) (rates : Rates)
    → rate_of code rates ≡ none
    → put code rate rates ≡ rates ++ (code, rate) ∷ []
unfolding put rate_of
put_new code rate [] h = refl
put_new code rate ((k, old) ∷ rates) h = ground (arith, put_new code rate rates)

rate_of-append_none :
    (code : String) (xs ys : Rates)
    → rate_of code xs ≡ none
    → rate_of code ys ≡ none
    → rate_of code (xs ++ ys) ≡ none
unfolding rate_of
rate_of-append_none code [] ys h k = k
rate_of-append_none code ((c, rate) ∷ xs) ys h k = ground (arith, rate_of-append_none code xs ys)

-- The keys of entries are not in a map.
abbrev Absent : Rates → Rates → Type 0
Absent found rates = All (λ (x : String × ℤ). rate_of x.0 found ≡ none) rates

Absent-append :
    (found : Rates) (e : String × ℤ) (rates : Rates)
    → Absent found rates
    → All (λ (x : String × ℤ). str_eq e.0 x.0 ≡ false) rates
    → Absent (found ++ e ∷ []) rates
unfolding rate_of
Absent-append found e [] a d = tt
Absent-append found e (x ∷ rates) a d = (
  rate_of-append_none x.0 found (e ∷ []) a.0 (ground (arith, d.0)),
  Absent-append found e rates a.1 d.1,
)

under_codes-map :
    (to_upper : String → String) (rates found : Rates)
    → IsMap to_upper rates
    → Absent found rates
    → under_codes to_upper rates found ≡ found ++ rates
unfolding under_codes
under_codes-map to_upper [] found m a = sym (append-nil found)
under_codes-map to_upper ((k, rate) ∷ rates) found m a =
    let here : put (code_of to_upper k) rate found ≡ found ++ (k, rate) ∷ [] =
      ap (λ c. put c rate found) m.0 ∙ put_new k rate found a.0 in
    ap (under_codes to_upper rates) here
    ∙ under_codes-map to_upper rates (found ++ (k, rate) ∷ []) m.2
        (Absent-append found (k, rate) rates a.1 m.1)
    ∙ append_assoc found ((k, rate) ∷ []) rates

Absent-nil : (rates : Rates) → Absent [] rates
unfolding rate_of
Absent-nil [] = tt
Absent-nil (e ∷ rates) = (refl, Absent-nil rates)

module _ (to_upper : String → String)
    (again : (s : String) → code_of to_upper (code_of to_upper s) ≡ code_of to_upper s) where
  abbrev Checked : Rates → String → Type 0
  Checked rates c = check_currency to_upper rates c ≡ ok tt

  check-All :
      (rates : Rates) (currencies : List String)
      → check_currencies to_upper rates currencies ≡ ok tt
      → All (Checked rates) currencies
  unfolding check_currencies
  check-All rates [] h = tt
  check-All rates (c ∷ cs) h = (ground arith, check-All rates cs (ground arith))

  All-check :
      (rates : Rates) (currencies : List String)
      → All (Checked rates) currencies
      → check_currencies to_upper rates currencies ≡ ok tt
  unfolding check_currencies
  All-check rates [] h = refl
  All-check rates (c ∷ cs) h = rw h.0 (All-check rates cs h.1)

  check-code_of :
      (rates : Rates) (c : String)
      → check_currency to_upper rates (code_of to_upper c) ≡ check_currency to_upper rates c
  unfolding check_currency
  check-code_of rates c = rw (again c) refl

  All-distinct_codes :
      (rates : Rates) (seen currencies : List String)
      → All (Checked rates) currencies
      → All (Checked rates) (distinct_codes to_upper seen currencies)
  unfolding distinct_codes
  All-distinct_codes rates seen [] h = tt
  All-distinct_codes rates seen (c ∷ cs) h =
      either (is_empty (code_of to_upper c) || any (λ x. str_eq x (code_of to_upper c)) seen)
        (λ s. All-distinct_codes rates s cs h.1)
    where
      either :
          (b : Bool)
          → ((s : List String) → All (Checked rates) (distinct_codes to_upper s cs))
          → All (Checked rates) (
              let rest =
                distinct_codes to_upper (if b then seen else code_of to_upper c ∷ seen) cs in
              if b then rest else code_of to_upper c ∷ rest)
      either true rest = rest seen
      either false rest = (check-code_of rates c ∙ h.0, rest (code_of to_upper c ∷ seen))

  not_empty : (rates : Rates) (c : String) → Checked rates c → is_empty (code_of to_upper c) ≡ false
  unfolding check_currency
  not_empty rates c h = ground arith

  some_code :
      (rates : Rates) (currencies : List String)
      → All (Checked rates) currencies
      → no_items currencies ≡ false
      → no_items (distinct_codes to_upper [] currencies) ≡ false
  unfolding distinct_codes any
  some_code rates [] h n = n
  some_code rates (c ∷ cs) h n = ground (arith, not_empty rates c h.0)

  same_rates :
      (r : SystemRates)
      → IsMap to_upper r.exchange_rates
      → (normalised to_upper r).exchange_rates ≡ r.exchange_rates
  unfolding normalised
  same_rates r m = under_codes-map to_upper r.exchange_rates [] m (Absent-nil r.exchange_rates)

  some_currencies :
      (r : SystemRates) → validate to_upper r ≡ ok tt → no_items r.supported_currencies ≡ false
  unfolding validate
  some_currencies r v = ground arith

  currencies_checked :
      (r : SystemRates)
      → validate to_upper r ≡ ok tt
      → check_currencies to_upper r.exchange_rates r.supported_currencies ≡ ok tt
  unfolding validate
  currencies_checked r v = ground arith

  validate_parts :
      (r : SystemRates) (currencies : List String)
      → validate to_upper r ≡ ok tt
      → no_items currencies ≡ false
      → check_currencies to_upper r.exchange_rates currencies ≡ ok tt
      → validate to_upper (record r { supported_currencies = currencies }) ≡ ok tt
  unfolding validate
  validate_parts r currencies v n c = ground arith

  pub normalised-valid :
      (r : SystemRates)
      → validate to_upper r ≡ ok tt
      → IsMap to_upper r.exchange_rates
      → validate to_upper (normalised to_upper r) ≡ ok tt
  unfolding normalised
  normalised-valid r v m =
      let codes = distinct_codes to_upper [] r.supported_currencies in
      let checked = check-All r.exchange_rates r.supported_currencies (currencies_checked r v) in
      let here : normalised to_upper r ≡ record r { supported_currencies = sort_by str_leb codes } =
        ap
          (λ rates. record r {
            supported_currencies = sort_by str_leb codes;
            exchange_rates = rates;
          })
          (same_rates r m) in
      ap (validate to_upper) here
      ∙ validate_parts r (sort_by str_leb codes) v
          (no_items-sort_by str_leb codes
            (some_code r.exchange_rates r.supported_currencies checked (some_currencies r v)))
          (All-check r.exchange_rates (sort_by str_leb codes) (
            All-sort_by (Checked r.exchange_rates) str_leb codes
              (All-distinct_codes r.exchange_rates [] r.supported_currencies checked)))
