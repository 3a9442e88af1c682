-- ===== src/Outbox/Worker/Delivery.antt =====
-- What the worker delivers.
use cross_border_logistics.Prelude.{
  ℕ, String, Bool, true, false, Option, none, some, List, [], ◌∷◌, ◌++◌, ◌==◌, ◌≡◌, ◌⊎◌, ◌∙◌, inl,
  inr, refl, sym, ap, arith, any, any-append, any-append_last, All, All-update_where,
  All-update_passing, All-weaken, append-nil, append_assoc, if◌then◌else◌, ◌||◌, ◌+◌,
}
use cross_border_logistics.External.{Uuid}
use cross_border_logistics.Outbox.Table.{
  OutboxRow, is_unpublished, unpublished_with, select_unpublished, set_published, set_failed,
}
use cross_border_logistics.Outbox.Worker.{
  State, Round, acknowledged, not_acknowledged, publish_all, poll, run_worker,
}

abbrev pub has_id : Uuid → OutboxRow → Bool
has_id k r = r.id == k

-- A row of the table is unpublished, or the broker has acknowledged its message.
abbrev pub IsSent : List OutboxRow → OutboxRow → Type 0
IsSent log row = (is_unpublished row ≡ true) ⊎ (any (has_id row.id) log ≡ true)

abbrev pub AllSent : State → Type 0
AllSent s = All (IsSent s.log) s.rows

longer :
    (log : List OutboxRow) (item row : OutboxRow) → IsSent log row → IsSent (log ++ item ∷ []) row
longer log item row (inl waiting) = inl waiting
longer log item row (inr sent) = inr (
    any-append (has_id row.id) log (item ∷ [])
    ∙ ap (λ b. b || any (has_id row.id) (item ∷ [])) sent)

marked :
    (log : List OutboxRow) (item row : OutboxRow) (at : Option ℕ) (n : ℕ)
    → unpublished_with item.id row ≡ true
    → IsSent (log ++ item ∷ []) (record row { published_at = at; attempts = n; last_error = none })
marked log item row at n h = inr (any-append_last (has_id row.id) log item (ground arith))

unsent :
    (log : List OutboxRow) (row : OutboxRow) (n : ℕ) (message : Option String)
    → IsSent log row
    → IsSent log (record row { attempts = n; last_error = message })
unsent log row n message h = h

acknowledged-AllSent :
    (r : Round) (item : OutboxRow) (s : State) → AllSent s → AllSent (acknowledged r item s)
unfolding acknowledged set_published
acknowledged-AllSent r item s h = go (r.mark_fails item)
  where
    kept : All (IsSent (s.log ++ item ∷ [])) s.rows
    kept = All-weaken (IsSent s.log) (IsSent (s.log ++ item ∷ [])) (longer s.log item) s.rows h

    go :
        (b : Bool)
        → All
            (IsSent (s.log ++ item ∷ []))
            (if b then s.rows else set_published item.id r.now s.rows)
    go true = kept
    go false =
        All-update_passing (IsSent (s.log ++ item ∷ [])) (unpublished_with item.id) _
          (λ row e _. marked s.log item row (some r.now) (row.attempts + 1) e) s.rows kept

not_acknowledged-AllSent :
    (r : Round) (item : OutboxRow) (message : String) (s : State)
    → AllSent s
    → AllSent (not_acknowledged r item message s)
unfolding not_acknowledged set_failed
not_acknowledged-AllSent r item message s h = go (r.mark_fails item)
  where
    go : (b : Bool) → All (IsSent s.log) (if b then s.rows else set_failed item.id message s.rows)
    go true = h
    go false =
        All-update_where (IsSent s.log) _ _
          (λ row. unsent s.log row (row.attempts + 1) (some message)) s.rows h

publish_all-AllSent :
    (items : List OutboxRow) (r : Round) (s : State) → AllSent s → AllSent (publish_all items r s)
unfolding publish_all
publish_all-AllSent [] r s h = h
publish_all-AllSent (item ∷ items) r s h =
    go (publish_all-AllSent items r) (r.publish_error item) (r.cancelled item)
  where
    go :
        ((t : State) → AllSent t → AllSent (publish_all items r t))
        → (e : Option String) (stop : Bool)
        → AllSent (elim e [
          | none ↦ publish_all items r (acknowledged r item s)
          | some message ↦ elim stop [
            | true ↦ s
            | false ↦ publish_all items r (not_acknowledged r item message s)
          ]
        ])
    go rest none stop = rest (acknowledged r item s) (acknowledged-AllSent r item s h)
    go rest (some message) true = h
    go rest (some message) false =
        rest (not_acknowledged r item message s) (not_acknowledged-AllSent r item message s h)

poll-AllSent : (r : Round) (s : State) → AllSent s → AllSent (poll r s)
unfolding poll
poll-AllSent r s h = go r.fetch_fails
  where
    go : (b : Bool) → AllSent (if b then s else publish_all (select_unpublished 20 s.rows) r s)
    go true = h
    go false = publish_all-AllSent (select_unpublished 20 s.rows) r s h

-- The worker marks a row as published only if the broker has acknowledged a message with its id:
-- where this holds of every row, it holds after any polls, whichever calls fail in them and
-- wherever they are cut off.
pub run-AllSent : (rounds : List Round) (s : State) → AllSent s → AllSent (run_worker rounds s)
unfolding run_worker
run-AllSent [] s h = h
run-AllSent (r ∷ rounds) s h = run-AllSent rounds (poll r s) (poll-AllSent r s h)

-- A message of the loop that the broker acknowledges whenever it is asked.
publish_all_log :
    (items : List OutboxRow) (r : Round) (s : State)
    → ((item : OutboxRow) → r.publish_error item ≡ none)
    → (publish_all items r s).log ≡ s.log ++ items
unfolding publish_all acknowledged
publish_all_log [] r s up = sym (append-nil s.log)
publish_all_log (item ∷ items) r s up =
    go (r.publish_error item) (up item)
    ∙ publish_all_log items r (acknowledged r item s) up
    ∙ append_assoc s.log (item ∷ []) items
  where
    go :
        (e : Option String)
        → e ≡ none
        → ◌≡◌ {A = List OutboxRow}
            (elim e as (λ x. State) [
              | none ↦ publish_all items r (acknowledged r item s)
              | some message ↦ elim (r.cancelled item) as (λ x. State) [
                | true ↦ s
                | false ↦ publish_all items r (not_acknowledged r item message s)
              ]
            ]).log
            (publish_all items r (acknowledged r item s)).log
    go none h = refl
    go (some message) h = cc

-- A poll whose fetch works and whose messages the broker all acknowledges delivers exactly the rows
-- that it has fetched, in their order and each once, whichever marks fail.
pub poll_delivers :
    (r : Round) (s : State)
    → r.fetch_fails ≡ false
    → ((item : OutboxRow) → r.publish_error item ≡ none)
    → (poll r s).log ≡ s.log ++ select_unpublished 20 s.rows
unfolding poll
poll_delivers r s works up = go r.fetch_fails works
  where
    go :
        (b : Bool)
        → b ≡ false
        → (if b then s else publish_all (select_unpublished 20 s.rows) r s).log
          ≡ s.log ++ select_unpublished 20 s.rows
    go true h = cc
    go false h = publish_all_log (select_unpublished 20 s.rows) r s up
