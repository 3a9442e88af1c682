-- ===== src/Outbox/Table.antt =====
-- The table outbox_events and the statements on it, which the three repositories have in common.
use cross_border_logistics.Prelude.{
  ℕ, ◌+◌, String, Bool, true, false, ◌&&◌, ◌||◌, Option, none, some, List, ltb, leb, ◌==◌, sort_by,
  keep, take, update_where, length, length-update_where, ◌≡◌,
}
use cross_border_logistics.External.{Uuid}

pub record OutboxRow : Type 0 where
  pub id : Uuid
  pub aggregate_id : Uuid
  pub event_type : String
  pub payload : String
  pub created_at : ℕ
  pub published_at : Option ℕ
  pub attempts : ℕ
  pub last_error : Option String

-- `published_at IS NULL`
abbrev pub is_unpublished : OutboxRow → Bool
is_unpublished row = elim row.published_at [ none ↦ true | some t ↦ false ]

-- `ORDER BY created_at,id`
abbrev pub is_before : OutboxRow → OutboxRow → Bool
is_before a b = ltb a.created_at b.created_at || a.created_at == b.created_at && leb a.id b.id

-- `SELECT … WHERE published_at IS NULL ORDER BY created_at,id LIMIT $1`
unfoldable pub select_unpublished : ℕ → List OutboxRow → List OutboxRow
select_unpublished limit rows = take limit (sort_by is_before (keep is_unpublished rows))

abbrev pub unpublished_with : Uuid → OutboxRow → Bool
unpublished_with id row = row.id == id && is_unpublished row

-- `UPDATE … SET published_at=$2,attempts=attempts+1,last_error=NULL WHERE …`
unfoldable pub set_published : Uuid → ℕ → List OutboxRow → List OutboxRow
set_published id at =
    update_where (unpublished_with id)
      λ row. record row { published_at = some at; attempts = row.attempts + 1; last_error = none }

-- `UPDATE … SET attempts=attempts+1,last_error=$2 WHERE …`
unfoldable pub set_failed : Uuid → String → List OutboxRow → List OutboxRow
set_failed id message =
    update_where (unpublished_with id)
      λ row. record row { attempts = row.attempts + 1; last_error = some message }

-- Publishing marks rows; it adds and removes none.
pub length-set_published :
    (id : Uuid) (at : ℕ) (rows : List OutboxRow) → length (set_published id at rows) ≡ length rows
unfolding set_published
length-set_published id at rows = length-update_where _ _ rows

pub length-set_failed :
    (id : Uuid) (message : String) (rows : List OutboxRow)
    → length (set_failed id message rows) ≡ length rows
unfolding set_failed
length-set_failed id message rows = length-update_where _ _ rows
