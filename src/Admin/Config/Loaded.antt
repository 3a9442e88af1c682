-- ===== src/Admin/Config/Loaded.antt =====
-- The configuration that is loaded is a valid source of rates.
use cross_border_logistics.Prelude.{
  ℕ, ℤ, String, Bool, true, false, none, some, List, [], ◌∷◌, ◌≡◌, refl, sym, subst, ◌∙◌, arith,
  any, ◌||◌, str_eq, eq_iff, if◌then◌else◌, All, ok, Bool-cases, Option-cases, inl, inr,
}
use cross_border_logistics.Go.{is_empty, trim_space, split_on}
use cross_border_logistics.Go.Numbers.{parse_int}
use cross_border_logistics.Admin.Domain.{Rates, put, SystemRates, code_of, validate}
use cross_border_logistics.Admin.Currencies.{distinct_codes}
use cross_border_logistics.Admin.Config.{Lookup, rate_text, read_rates, raw, split, load}
use cross_border_logistics.Admin.Service.{normalised, execute}
use cross_border_logistics.Admin.Service.Answer.{IsMap, normalised-valid}

put-All :
    (Q : String → Type 0) (code : String) (rate : ℤ) (rates : Rates)
    → Q code
    → All (λ (x : String × ℤ). Q x.0) rates
    → All (λ (x : String × ℤ). Q x.0) (put code rate rates)
unfolding put
put-All Q code rate [] q qs = (q, tt)
put-All Q code rate ((k, old) ∷ rates) q qs =
    either (str_eq k code) (q, qs.1) (qs.0, put-All Q code rate rates q qs.1)
  where
    either :
        (b : Bool)
        → All (λ (x : String × ℤ). Q x.0) ((code, rate) ∷ rates)
        → All (λ (x : String × ℤ). Q x.0) ((k, old) ∷ put code rate rates)
        → All
            (λ (x : String × ℤ). Q x.0)
            (if b then (code, rate) ∷ rates else (k, old) ∷ put code rate rates)
    either true first second = first
    either false first second = second

module _ (to_upper : String → String)
    (again : (s : String) → code_of to_upper (code_of to_upper s) ≡ code_of to_upper s) where
  abbrev IsCode : String → Type 0
  IsCode c = code_of to_upper c ≡ c

  put-IsMap :
      (code : String) (rate : ℤ) (rates : Rates)
      → IsCode code
      → IsMap to_upper rates
      → IsMap to_upper (put code rate rates)
  unfolding put
  put-IsMap code rate [] c m = (c, tt, tt)
  put-IsMap code rate ((k, old) ∷ rates) c m = elim (Bool-cases (str_eq k code)) [
    | inl same ↦
        (let key : k ≡ code = (eq_iff k code).0 same in
          let other = subst (λ s. All (λ (x : String × ℤ). str_eq s x.0 ≡ false) rates) key m.1 in
          rw same (c, other, m.2))
    | inr new ↦ rw new (
      m.0,
      put-All (λ s. str_eq k s ≡ false) code rate rates new m.1,
      put-IsMap code rate rates c m.2,
    )
  ]

  distinct_codes-IsCode :
      (seen currencies : List String) → All IsCode (distinct_codes to_upper seen currencies)
  unfolding distinct_codes
  distinct_codes-IsCode seen [] = tt
  distinct_codes-IsCode seen (c ∷ cs) =
      either (is_empty (code_of to_upper c) || any (λ x. str_eq x (code_of to_upper c)) seen)
        (λ s. distinct_codes-IsCode s cs)
    where
      either :
          (b : Bool)
          → ((s : List String) → All IsCode (distinct_codes to_upper s cs))
          → All IsCode (
              let rest =
                distinct_codes to_upper (if b then seen else code_of to_upper c ∷ seen) cs in
              if b then rest else code_of to_upper c ∷ rest)
      either true rest = rest seen
      either false rest = (again c, rest (code_of to_upper c ∷ seen))

  skipped :
      (lookup : Lookup) (c : String) (cs : List String) (rates : Rates)
      → rate_text lookup c ≡ none
      → read_rates lookup (c ∷ cs) rates ≡ read_rates lookup cs rates
  unfolding read_rates
  skipped lookup c cs rates h = ground arith

  unreadable :
      (lookup : Lookup) (c : String) (cs : List String) (rates r : Rates) (text : String)
      → rate_text lookup c ≡ some text
      → parse_int (trim_space text) ≡ none
      → read_rates lookup (c ∷ cs) rates ≡ ok r
      → ⊥
  unfolding read_rates
  unreadable lookup c cs rates r text h n e = ground arith

  was_read :
      (lookup : Lookup) (c : String) (cs : List String) (rates : Rates) (text : String) (rate : ℤ)
      → rate_text lookup c ≡ some text
      → parse_int (trim_space text) ≡ some rate
      → read_rates lookup (c ∷ cs) rates ≡ read_rates lookup cs (put c rate rates)
  unfolding read_rates
  was_read lookup c cs rates text rate h n = ground arith

  read_rates-IsMap :
      (lookup : Lookup) (currencies : List String) (rates r : Rates)
      → All IsCode currencies
      → IsMap to_upper rates
      → read_rates lookup currencies rates ≡ ok r
      → IsMap to_upper r
  unfolding read_rates
  read_rates-IsMap lookup [] rates r cs m e =
      let same : rates ≡ r = ground arith in subst (IsMap to_upper) same m
  read_rates-IsMap lookup (c ∷ currencies) rates r cs m e =
      elim (Option-cases (rate_text lookup c)) [
        | inl nothing ↦
            read_rates-IsMap lookup currencies rates r cs.1 m
              (sym (skipped lookup c currencies rates nothing) ∙ e)
        | inr (text, is_text) ↦ elim (Option-cases (parse_int (trim_space text))) [
          | inl bad ↦ absurd (unreadable lookup c currencies rates r text is_text bad e)
          | inr (rate, is_rate) ↦
              read_rates-IsMap lookup currencies (put c rate rates) r cs.1
                (put-IsMap c rate rates cs.0 m)
                (sym (was_read lookup c currencies rates text rate is_text is_rate) ∙ e)
        ]
      ]

  load_parts :
      (lookup : Lookup) (at : ℕ) (r : SystemRates)
      → load to_upper lookup at ≡ ok r
      → (read_rates lookup
            (split to_upper (raw lookup "ADMIN_SUPPORTED_CURRENCIES" "USD,CNY,JPY,KRW"))
            []
          ≡ ok r.exchange_rates)
        × (validate to_upper r ≡ ok tt)
  unfolding load
  load_parts lookup at r e = (ground arith, ground arith)

  -- A configuration that is loaded is answered by `Execute` with rates that pass `Validate`: the
  -- percentages and the fee in their bounds, at least one currency, and a positive rate for each. To
  -- take the code of a code must give the same code.
  pub load-valid :
      (lookup : Lookup) (at : ℕ) (r : SystemRates)
      → load to_upper lookup at ≡ ok r
      → (r' : SystemRates) × (execute to_upper (ok r) ≡ ok r') × (validate to_upper r' ≡ ok tt)
  unfolding execute split
  load-valid lookup at r e =
      let parts = load_parts lookup at r e in
      let codes =
        distinct_codes-IsCode []
          (split_on b',' (raw lookup "ADMIN_SUPPORTED_CURRENCIES" "USD,CNY,JPY,KRW")) in
      let rates = read_rates-IsMap lookup _ [] r.exchange_rates codes tt parts.0 in
      (normalised to_upper r, refl, normalised-valid to_upper again r parts.1 rates)
