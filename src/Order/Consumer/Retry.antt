-- ===== src/Order/Consumer/Retry.antt =====
-- What a bad event does to each consumer of backend/internal/order/adapters/kafka.
use cross_border_logistics.Prelude.{
  String, true, false, none, some, List, [], ◌∷◌, ◌≡◌, ◌⊎◌, inl, inr, refl, arith, str_eq, err,
}
use cross_border_logistics.External.{Uuids}
use cross_border_logistics.Event.{
  PaymentSucceededData, PackageReceivedData, payment_deposit_succeeded, Envelope, Codec,
}
use cross_border_logistics.Order.Domain.{OrderError, invalid_input}
use cross_border_logistics.Order.Ports.{Db}
use cross_border_logistics.Order.Service.Handlers.{
  is_valid_payment, is_valid_package, handle_payment_deposit_succeeded, handle_package_received,
}
use cross_border_logistics.Order.Consumer.{
  Round, Handle, retry, retry_valid, deposit_handle, package_handle, attempt, attempt_package,
  process_until_success, process_package, run,
}

-- A handler that always refuses and changes nothing keeps the loop going to the end of the rounds.
retry_stuck :
    (handle : Handle) (e : OrderError) (db : Db)
    → ((r : Round) → handle r db ≡ (err e, db))
    → (rounds : List Round) → retry handle rounds db ≡ (false, db)
unfolding retry
retry_stuck handle e db refuses [] = refl
retry_stuck handle e db refuses (r ∷ rest) =
    ground (arith, refuses r, retry_stuck handle e db refuses rest)

-- A handler that refuses an event as invalid ends the loop of the warehouse consumer.
retry_valid_skips :
    (handle : Handle) (r : Round) (rest : List Round) (db : Db)
    → handle r db ≡ (err invalid_input, db)
    → retry_valid handle (r ∷ rest) db ≡ (true, db)
unfolding retry_valid
retry_valid_skips handle r rest db refused = ground arith

-- The data of a payment event cannot be read, or are not in order.
abbrev pub IsUnusable : Codec → Envelope → Type 0
IsUnusable c e =
    (c.unmarshal_payment e.payload ≡ none)
    ⊎ ((p : PaymentSucceededData) × (c.unmarshal_payment e.payload ≡ some p)
        × (is_valid_payment e p ≡ false))

-- The data of a package event cannot be read, or are not in order.
abbrev pub IsUnusablePackage : Codec → Envelope → Type 0
IsUnusablePackage c e =
    (c.unmarshal_package e.payload ≡ none)
    ⊎ ((p : PackageReceivedData) × (c.unmarshal_package e.payload ≡ some p)
        × (is_valid_package e p ≡ false))

module _ (u : Uuids) (c : Codec) where
  unusable_refused :
      (e : Envelope) (db : Db)
      → IsUnusable c e
      → (r : Round) → deposit_handle u c e r db ≡ (err invalid_input, db)
  unfolding handle_payment_deposit_succeeded
  unusable_refused e db (inl bad) r = ground arith
  unusable_refused e db (inr (p, read, bad)) r = ground arith

  -- A deposit event whose data cannot be read or are not in order is never committed: whatever the
  -- rounds, the payment consumer does not finish with it, and the tables stay as they are.
  pub poison_payment :
      (record' : String) (e : Envelope) (rounds : List Round) (db : Db)
      → c.unmarshal_envelope record' ≡ some e
      → str_eq e.event_type payment_deposit_succeeded ≡ true
      → IsUnusable c e
      → process_until_success u c record' rounds db ≡ (false, db)
  unfolding process_until_success
  poison_payment record' e [] db read type bad = refl
  poison_payment record' e (r ∷ rest) db read type bad =
      rw (attempt, read, type)
        (retry_stuck (deposit_handle u c e) invalid_input db (unusable_refused e db bad) (r ∷ rest))

  -- Behind a deposit event whose data cannot be read or are not in order, whatever the records and the
  -- rounds, the payment consumer commits nothing, and the tables stay as they are.
  pub poison_blocks :
      (record' : String) (e : Envelope) (rounds : List Round) (rest : List (String × List Round))
      (db : Db)
      → c.unmarshal_envelope record' ≡ some e
      → str_eq e.event_type payment_deposit_succeeded ≡ true
      → IsUnusable c e
      → run (process_until_success u c) ((record', rounds) ∷ rest) db ≡ ([], db)
  unfolding run
  poison_blocks record' e rounds rest db read type bad =
      rw (poison_payment record' e rounds db read type bad)

  unusable_package_refused :
      (e : Envelope) (db : Db)
      → IsUnusablePackage c e
      → (r : Round) → package_handle u c e r db ≡ (err invalid_input, db)
  unfolding handle_package_received
  unusable_package_refused e db (inl bad) r = ground arith
  unusable_package_refused e db (inr (p, read, bad)) r = ground arith

  -- The warehouse consumer passes such a record over: with one round it commits a package event whose
  -- data cannot be read or are not in order, and the tables stay as they are.
  pub poison_package_skipped :
      (record' : String) (e : Envelope) (r : Round) (rest : List Round) (db : Db)
      → c.unmarshal_envelope record' ≡ some e
      → IsUnusablePackage c e
      → process_package u c record' (r ∷ rest) db ≡ (true, db)
  unfolding process_package
  poison_package_skipped record' e r rest db read bad =
      rw (attempt_package, read)
        (retry_valid_skips (package_handle u c e) r rest db (unusable_package_refused e db bad r))
