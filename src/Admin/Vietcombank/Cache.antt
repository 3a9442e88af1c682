-- ===== src/Admin/Vietcombank/Cache.antt =====
-- What the provider answers over time.
use cross_border_logistics.Prelude.{
  subst, ℕ, ◌+◌, String, true, none, some, ◌≡◌, ◌⊎◌, inl, inr, refl, arith, sym, ◌∙◌, ltb, Result,
  ok, err, Option-cases, Bool-cases,
}
use cross_border_logistics.Admin.Domain.{Rates, SystemRates, RatesError, validate}
use cross_border_logistics.Admin.Vietcombank.{
  Readers, fetch, Provider, remembered, Outside, live_rates, after_failure, after_fetch, refresh,
  get_system_rates,
}

module _ (rd : Readers) (to_upper : String → String) (ttl : ℕ) where
  -- An answer with rates has valid ones.
  abbrev pub AnswersValid : Result RatesError SystemRates → Type 0
  AnswersValid (ok r) = validate to_upper r ≡ ok tt
  AnswersValid (err e) = Unit {0}

  -- The cache has valid rates.
  abbrev pub HoldsValid : Provider → Type 0
  HoldsValid p = (r : SystemRates) → p.cached ≡ some r → validate to_upper r ≡ ok tt

  failed_held :
      (now : ℕ) (e : RatesError) (p : Provider) (r : SystemRates)
      → p.cached ≡ some r
      → after_failure ttl now e p ≡ (ok r, record p { expires_at = now + ttl })
  unfolding after_failure
  failed_held now e p r h = ground arith

  failed_empty :
      (now : ℕ) (e : RatesError) (p : Provider)
      → p.cached ≡ none
      → after_failure ttl now e p ≡ (err e, record p { expires_at = now + ttl; last_err = some e })
  unfolding after_failure
  failed_empty now e p h = ground arith

  fetched_bad :
      (now : ℕ) (rates : SystemRates) (p : Provider) (e : RatesError)
      → validate to_upper rates ≡ err e
      → after_fetch to_upper ttl now rates p ≡ (err e, p)
  unfolding after_fetch
  fetched_bad now rates p e h = ground arith

  fetched_good :
      (now : ℕ) (rates : SystemRates) (p : Provider)
      → validate to_upper rates ≡ ok tt
      → after_fetch to_upper ttl now rates p
        ≡ (ok rates, record { cached = some rates; expires_at = now + ttl; last_err = none })
  unfolding after_fetch
  fetched_good now rates p h = ground arith

  base_failed :
      (o : Outside) (p : Provider) (e : RatesError)
      → o.base ≡ err e
      → refresh rd to_upper ttl o p ≡ (err e, p)
  unfolding refresh
  base_failed o p e h = ground arith

  fetch_failing :
      (o : Outside) (p : Provider) (base : SystemRates) (e : RatesError)
      → o.base ≡ ok base
      → fetch rd to_upper o.answer base.supported_currencies o.now ≡ err e
      → refresh rd to_upper ttl o p ≡ after_failure ttl o.now e p
  unfolding refresh
  fetch_failing o p base e h f = ground arith

  fetch_done :
      (o : Outside) (p : Provider) (base : SystemRates) (live : Rates × ℕ)
      → o.base ≡ ok base
      → fetch rd to_upper o.answer base.supported_currencies o.now ≡ ok live
      → refresh rd to_upper ttl o p ≡ after_fetch to_upper ttl o.now (live_rates base live) p
  unfolding refresh
  fetch_done o p base live h f = ground arith

  -- How a refresh ends.
  pub data Refreshed (o : Outside) (p : Provider)
      : Result RatesError SystemRates × Provider → Type 0 where
    no_base : (e : RatesError) → o.base ≡ err e → Refreshed o p (err e, p)
    kept :
        (r : SystemRates)
        → p.cached ≡ some r
        → Refreshed o p (ok r, record p { expires_at = o.now + ttl })
    unreachable :
        (e : RatesError)
        → p.cached ≡ none
        → Refreshed o p (err e, record p { expires_at = o.now + ttl; last_err = some e })
    invalid :
        (base : SystemRates) (live : Rates × ℕ) (e : RatesError)
        → o.base ≡ ok base
        → fetch rd to_upper o.answer base.supported_currencies o.now ≡ ok live
        → validate to_upper (live_rates base live) ≡ err e
        → Refreshed o p (err e, p)
    renewed :
        (r : SystemRates)
        → validate to_upper r ≡ ok tt
        → Refreshed o p
            (ok r, record { cached = some r; expires_at = o.now + ttl; last_err = none })

  pub refresh-Refreshed : (o : Outside) (p : Provider) → Refreshed o p (refresh rd to_upper ttl o p)
  refresh-Refreshed o p = go o.base refl
    where
      checked :
          (base : SystemRates) (live : Rates × ℕ) (v : Result RatesError (Unit {0}))
          → o.base ≡ ok base
          → fetch rd to_upper o.answer base.supported_currencies o.now ≡ ok live
          → validate to_upper (live_rates base live) ≡ v
          → Refreshed o p (refresh rd to_upper ttl o p)
      checked base live (err e) b f v =
          subst (Refreshed o p)
            (sym (fetch_done o p base live b f ∙ fetched_bad o.now (live_rates base live) p e v))
            (invalid base live e b f v)
      checked base live (ok tt) b f v =
          subst (Refreshed o p)
            (sym (fetch_done o p base live b f ∙ fetched_good o.now (live_rates base live) p v))
            (renewed (live_rates base live) v)

      fetched :
          (base : SystemRates) (f : Result RatesError (Rates × ℕ))
          → o.base ≡ ok base
          → fetch rd to_upper o.answer base.supported_currencies o.now ≡ f
          → Refreshed o p (refresh rd to_upper ttl o p)
      fetched base (ok live) b f =
          checked base live (validate to_upper (live_rates base live)) b f refl
      fetched base (err e) b f = elim (Option-cases p.cached) [
        | inl empty ↦
            subst (Refreshed o p)
              (sym (fetch_failing o p base e b f ∙ failed_empty o.now e p empty))
              (unreachable e empty)
        | inr (r, held) ↦
            subst (Refreshed o p)
              (sym (fetch_failing o p base e b f ∙ failed_held o.now e p r held)) (kept r held)
      ]

      go :
          (b : Result RatesError SystemRates)
          → o.base ≡ b
          → Refreshed o p (refresh rd to_upper ttl o p)
      go (err e) b = subst (Refreshed o p) (sym (base_failed o p e b)) (no_base e b)
      go (ok base) b =
          fetched base (fetch rd to_upper o.answer base.supported_currencies o.now) b refl

  -- A call answers from the memory before the expiry, or it is a refresh.
  pub get_cases :
      (o : Outside) (p : Provider)
      → ((r : Result RatesError SystemRates) × (remembered p ≡ some r)
          × (ltb o.now p.expires_at ≡ true)
          × (get_system_rates rd to_upper ttl o p ≡ (r, p)))
        ⊎ (get_system_rates rd to_upper ttl o p ≡ refresh rd to_upper ttl o p)
  unfolding get_system_rates
  get_cases o p = elim (Bool-cases (ltb o.now p.expires_at)) [
    | inr late ↦ inr (ground arith)
    | inl early ↦ elim (Option-cases (remembered p)) [
      | inl nothing ↦ inr (ground arith)
      | inr (r, held) ↦ inl (r, held, early, ground arith)
    ]
  ]
