-- ===== src/External.antt =====
-- Code that the services call and that is not in the repository, as parameters:
-- github.com/google/uuid, and the way pgx and PostgreSQL read a text argument of a uuid column.
use cross_border_logistics.Prelude.{ℕ, String, Option}

-- A UUID is its 16 bytes read as a number; `uuid.Nil` is 0.
abbrev pub Uuid : Type 0
Uuid = ℕ

pub record Uuids : Type 0 where
  -- `uuid.Parse`
  pub parse : String → Option Uuid
  -- `UUID.String`, which is also the text of `id::text`
  pub format : Uuid → String
  -- a text passed for a uuid column; `none` is an error of the statement
  pub column : String → Option Uuid
  -- `uuid.NewSHA1(uuid.NameSpaceURL, []byte(name))`
  pub name_based : String → Uuid
