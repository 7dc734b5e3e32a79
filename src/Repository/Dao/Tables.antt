-- ===== src/Repository/Dao/Tables.antt =====
-- internal/repository/dao/notification.go: the rows, the conditions and columns of the statements, and
-- the database that runs them.
use Prim.Native.String.{String}
use go_notification.Prelude.{
  Bool, List, [], ◌∷◌, map, Option, none, some, ℤ, pos, leb_ℤ, assign, if◌then◌else◌,
}
use go_notification.Errs.{Err, Result, ok, err, Sentinel, failure}
use go_notification.Effect.{Effect}
use go_notification.Domain.Notification.{other_channel, SendStatus, other_status}
use go_notification.Repository.Entities.{Entity}

pub data Table : Type 0 where
  notifications callback_logs : Table

-- `next_version` is gorm.Expr("version + 1")
pub data Value : Type 0 where
  number : ℤ → Value
  words : String → Value
  status : SendStatus → Value
  next_version : Value

pub data Condition : Type 0 where
  equals : String → Value → Condition
  one_of : String → List ℤ → Condition
  one_of_words : String → List String → Condition
  at_most at_least : String → ℤ → Condition

abbrev pub Columns : Type 0
Columns = List (String × Value)

-- dao.Notification with its times
pub record Row : Type 0 where
  pub entity : Entity
  pub ctime : ℤ
  pub utime : ℤ

-- what is set of a new row of the callback logs; `none` is a column that is left to its default
pub record NewLog : Type 0 where
  pub notification_id : ℤ
  pub status : Option String
  pub next_retry_time : ℤ
  pub ctime : ℤ
  pub utime : ℤ

-- `first` answers `none` for gorm.ErrRecordNotFound, `update` with the number of rows that it met, and
-- `is_unique_constraint_error` reads the number of an error of MySQL. `rollback` takes the state in
-- which a transaction began and the one in which it failed.
pub record NotificationDatabase {ℓ} (S : Type ℓ) : Type ℓ where
  pub now_milli : S → ℤ × S
  pub select_rows : List Condition → Effect S (List Row)
  pub select_page : List Condition → ℤ → ℤ → Effect S (List Row)
  pub select_ids : List Condition → ℤ → Effect S (List ℤ)
  pub first : List Condition → Effect S (Option Row)
  pub insert_rows : List Row → Effect S (Unit {0})
  pub insert_logs : List NewLog → Effect S (Unit {0})
  pub update : Table → List Condition → Columns → Effect S ℤ
  pub is_unique_constraint_error : Err → Bool
  pub rollback : S → S → S

abbrev pub first_version : Entity → Entity
first_version e = record e { version = pos 1 }

abbrev pub created : ℤ → Entity → Row
created now e = record { entity = first_version e; ctime = now; utime = now }

-- the columns of every change of a status
abbrev pub status_columns : SendStatus → ℤ → Columns
status_columns s now = ("status", status s) ∷ ("version", next_version) ∷ ("utime", number now) ∷ []

abbrev pub log_columns : ℤ → Columns
log_columns now = ("status", words "PENDING") ∷ ("utime", number now) ∷ []

abbrev pub ids_of : List Entity → List ℤ
ids_of = map (λ e. Entity.id e)

unfoldable pub entities_by_id : List Row → List (ℤ × Entity) → List (ℤ × Entity)
entities_by_id [] m = m
entities_by_id (row ∷ rows) m = entities_by_id rows (assign row.entity.id row.entity m)

-- the answer to a number of rows that a compare-and-set met
abbrev pub met_or_mismatch : ℤ → Result (Unit {0})
met_or_mismatch affected =
    if leb_ℤ (pos 1) affected then ok tt else err (Sentinel.notification_version_mismatch ∷ [])

abbrev pub empty_entity : Entity
empty_entity = record {
  id = pos 0;
  biz_id = pos 0;
  key = "";
  receivers = "";
  channel = other_channel "";
  template_id = pos 0;
  template_version_id = pos 0;
  template_params = "";
  status = other_status "";
  scheduled_stime = pos 0;
  scheduled_etime = pos 0;
  version = pos 0;
}

-- gorm.ErrRecordNotFound
abbrev pub record_not_found : Err
record_not_found = failure 10

abbrev pub found_by_key {ℓ} : {S : Type ℓ} → Result (Option Row) × S → (Entity × Option Err) × S
found_by_key (err e, s) = ((empty_entity, some e), s)
found_by_key (ok none, s) = ((empty_entity, some record_not_found), s)
found_by_key (ok (some row), s) = ((row.entity, none), s)
