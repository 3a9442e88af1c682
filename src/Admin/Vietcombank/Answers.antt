-- ===== src/Admin/Vietcombank/Answers.antt =====
-- What the callers of the provider rely on.
use cross_border_logistics.Prelude.{
  ℕ, ◌<◌, String, some, List, [], ◌∷◌, ◌≡◌, ◌⊎◌, inl, inr, refl, arith, sym, ap, subst, ◌∙◌, All,
  Result, ok, err,
}
use cross_border_logistics.Admin.Domain.{Rates, SystemRates, RatesError, validate}
use cross_border_logistics.Admin.Vietcombank.{
  Readers, fetch, Provider, new_provider, remembered, Outside, live_rates, get_system_rates, calls,
}
use cross_border_logistics.Admin.Vietcombank.Cache.{
  AnswersValid, HoldsValid, Refreshed, no_base, kept, unreachable, invalid, renewed,
  refresh-Refreshed, get_cases,
}

module _ (rd : Readers) (to_upper : String → String) (ttl : ℕ) where
  abbrev Valid : Result RatesError SystemRates → Type 0
  Valid = AnswersValid rd to_upper ttl

  abbrev Sound : Provider → Type 0
  Sound = HoldsValid rd to_upper ttl

  abbrev Good : Result RatesError SystemRates × Provider → Type 0
  Good x = Valid x.0 × Sound x.1

  Refreshed-Good :
      (o : Outside) (p : Provider) (x : Result RatesError SystemRates × Provider)
      → Sound p
      → Refreshed rd to_upper ttl o p x
      → Good x
  Refreshed-Good o p x h (no_base e b) = (tt, h)
  Refreshed-Good o p x h (kept r held) = (h r held, h)
  Refreshed-Good o p x h (unreachable e empty) = (tt, h)
  Refreshed-Good o p x h (invalid base live e b f v) = (tt, h)
  Refreshed-Good o p x h (renewed r v) = (
    v,
    λ r' c. let same : r ≡ r' = ground arith in subst (λ a. validate to_upper a ≡ ok tt) same v,
  )

  remembered-Valid :
      (p : Provider) (r : Result RatesError SystemRates) → Sound p → remembered p ≡ some r → Valid r
  unfolding remembered
  remembered-Valid p (err e) h m = tt
  remembered-Valid p (ok r) h m = h r (ground arith)

  get-Good : (o : Outside) (p : Provider) → Sound p → Good (get_system_rates rd to_upper ttl o p)
  get-Good o p h = elim (get_cases rd to_upper ttl o p) [
    | inl (r, m, early, e) ↦ subst Good (sym e) (remembered-Valid p r h m, h)
    | inr e ↦ subst Good (sym e) (Refreshed-Good o p _ h (refresh-Refreshed rd to_upper ttl o p))
  ]

  calls_from : (os : List Outside) (p : Provider) → Sound p → All Valid (calls rd to_upper ttl os p)
  unfolding calls
  calls_from [] p h = tt
  calls_from (o ∷ os) p h =
      let g = get-Good o p h in (g.0, calls_from os (get_system_rates rd to_upper ttl o p).1 g.1)

  -- Whatever the bank and the base provider answer over time, no call is ever answered with rates
  -- that do not pass `Validate`, from the cache or live.
  pub calls-AnswersValid :
      (os : List Outside)
      → All (AnswersValid rd to_upper ttl) (calls rd to_upper ttl os new_provider)
  calls-AnswersValid os = calls_from os new_provider (λ r c. absurd (ground arith))

  kept_answer :
      (p : Provider) (r : SystemRates) (o : Outside)
      → remembered p ≡ some (ok r)
      → o.now < p.expires_at
      → get_system_rates rd to_upper ttl o p ≡ (ok r, p)
  unfolding get_system_rates
  kept_answer p r o held early = ground arith

  held : (p : Provider) (r : SystemRates) → p.cached ≡ some r → remembered p ≡ some (ok r)
  unfolding remembered
  held p r h = ground arith

  Refreshed-held :
      (o : Outside) (p : Provider) (r : SystemRates) (x : Result RatesError SystemRates × Provider)
      → Refreshed rd to_upper ttl o p x
      → x.0 ≡ ok r
      → remembered x.1 ≡ some (ok r)
  unfolding remembered
  Refreshed-held o p r x (no_base e b) h = absurd (ground arith)
  Refreshed-held o p r x (kept r' c) h = ground arith
  Refreshed-held o p r x (unreachable e empty) h = absurd (ground arith)
  Refreshed-held o p r x (invalid base live e b f v) h = absurd (ground arith)
  Refreshed-held o p r x (renewed r' v) h = ground arith

  -- Rates that were answered are the answer of every call until the provider's expiry, whatever the
  -- bank and the base provider would answer then.
  pub answer_kept :
      (o later : Outside) (p p' : Provider) (r : SystemRates)
      → get_system_rates rd to_upper ttl o p ≡ (ok r, p')
      → later.now < p'.expires_at
      → get_system_rates rd to_upper ttl later p' ≡ (ok r, p')
  answer_kept o later p p' r h early = kept_answer p' r later now_held early
    where
      now_held : remembered p' ≡ some (ok r)
      now_held = elim (get_cases rd to_upper ttl o p) [
        | inl (r', m, soon, e) ↦ ground arith
        | inr e ↦
            subst (λ (x : Result RatesError SystemRates × Provider). remembered x.1 ≡ some (ok r))
              (sym e ∙ h)
              (Refreshed-held o p r _ (refresh-Refreshed rd to_upper ttl o p)
                (ap (λ (x : Result RatesError SystemRates × Provider). x.0) (sym e ∙ h)))
      ]

  -- The rates of the bank could be read, but did not pass `Validate`.
  pub record IsInvalid (o : Outside) (e : RatesError) : Type 0 where
    pub base : SystemRates
    pub is_base : o.base ≡ ok base
    pub live : Rates × ℕ
    pub is_live : fetch rd to_upper o.answer base.supported_currencies o.now ≡ ok live
    pub refused : validate to_upper (live_rates base live) ≡ err e

  Refreshed-fails :
      (o : Outside) (p : Provider) (r : SystemRates) (e : RatesError)
      (x : Result RatesError SystemRates × Provider)
      → Refreshed rd to_upper ttl o p x
      → p.cached ≡ some r
      → x.0 ≡ err e
      → ((o.base ≡ err e) ⊎ IsInvalid o e) × (x.1 ≡ p)
  Refreshed-fails o p r e x (no_base e' b) c h = (inl (ground arith), refl)
  Refreshed-fails o p r e x (kept r' c') c h = absurd (ground arith)
  Refreshed-fails o p r e x (unreachable e' empty) c h = absurd (ground arith)
  Refreshed-fails o p r e x (invalid base live e' b f v) c h = (
    inr (record { base = base; is_base = b; live = live; is_live = f; refused = ground arith }),
    refl,
  )
  Refreshed-fails o p r e x (renewed r' v) c h = absurd (ground arith)

  -- Once there are rates in the cache, no call fails because the bank cannot be reached or read. A
  -- call fails only if the base provider does, or if rates of the bank were read that do not pass
  -- `Validate`; the rates in the cache are then not answered, and nothing is remembered of the failure.
  pub cached_answers :
      (o : Outside) (p p' : Provider) (r : SystemRates) (e : RatesError)
      → p.cached ≡ some r
      → get_system_rates rd to_upper ttl o p ≡ (err e, p')
      → ((o.base ≡ err e) ⊎ IsInvalid o e) × (p' ≡ p)
  cached_answers o p p' r e c h = elim (get_cases rd to_upper ttl o p) [
    | inl (r', m, soon, g) ↦ absurd (ground (arith, held p r c))
    | inr g ↦
        (let state = sym g ∙ h in
          subst
            (λ (x : Result RatesError SystemRates × Provider).
              ((o.base ≡ err e) ⊎ IsInvalid o e) × (x.1 ≡ p))
            state
            (Refreshed-fails o p r e _ (refresh-Refreshed rd to_upper ttl o p) c
              (ap (λ (x : Result RatesError SystemRates × Provider). x.0) state)))
  ]
