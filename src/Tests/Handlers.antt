-- ===== src/Tests/Handlers.antt =====
-- The other HTTP handlers and the exchange rates on concrete inputs.
use cross_border_logistics.Prelude.{ℕ, pos, false, some, [], ◌∷◌, ◌≡◌, refl, take, ok, err}
use cross_border_logistics.Go.{trim_space}
use cross_border_logistics.Http.{failure, one_value}
use cross_border_logistics.Quotation.Domain.{
  quotation_conflict, quotation_not_found, exchange_unavailable,
}
use cross_border_logistics.Quotation.Http.{Service, post_confirm, serve, write_error}
use cross_border_logistics.Admin.Domain.{rate_of}
use cross_border_logistics.Quotation.Rates.{Attempt, admin_rate, http_rate}

-- A service whose quotations all belong to another order.
abbrev taken : Service ℕ
taken = record {
  extract = λ input n. (err quotation_not_found, n);
  get = λ id n. err quotation_not_found;
  get_snapshot = λ id n. err quotation_not_found;
  confirm = λ id order n. (err quotation_conflict, n);
}

confirm_run :
    serve taken (post_confirm "q" (one_value "o")) 4
    ≡ (failure 409 "QUOTATION_ALREADY_CONFIRMED" "quotation is reserved by another order", 4)
unfolding serve write_error
confirm_run = refl

admin_rate_run :
    admin_rate
      (λ s. s)
      (λ s. some (("USD", pos 26000) ∷ []))
      (some (record { status = 200; body = "" }))
      " USD "
    ≡ ok (pos 26000)
unfolding admin_rate rate_of trim_space
admin_rate_run = refl

abbrev busy : Attempt
busy = record { reply = some (record { status = 503; body = "" }); cancelled = false }

abbrev answered : Attempt
answered = record { reply = some (record { status = 200; body = "" }); cancelled = false }

-- The third attempt can answer, a fourth is not made.
third_run : http_rate (λ s. some (pos 9)) (busy ∷ busy ∷ answered ∷ []) ≡ ok (pos 9)
unfolding http_rate take
third_run = refl

fourth_run :
    http_rate (λ s. some (pos 9)) (busy ∷ busy ∷ busy ∷ answered ∷ []) ≡ err exchange_unavailable
unfolding http_rate take
fourth_run = refl
