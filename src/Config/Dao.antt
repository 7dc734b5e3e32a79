-- ===== src/Config/Dao.antt =====
-- internal/repository/dao/config.go: the statements on business_configs. gorm and the database are the
-- parameter ConfigTable.
use go_notification.Prelude.{ℤ, List, [], ◌∷◌, assign}
use go_notification.Errs.{ok}
use go_notification.Effect.{Effect, bind_result}
use go_notification.Config.Entities.{Row}

pub record ConfigTable {ℓ} (S : Type ℓ) : Type ℓ where
  pub now_milli : S → ℤ × S
  pub select_in : List ℤ → Effect S (List Row)
  pub select_first : ℤ → Effect S Row
  pub delete_where : ℤ → Effect S (Unit {0})
  pub upsert : Row → Effect S (Unit {0})
  pub select_page : ℤ → ℤ → Effect S (List Row)

-- dao.BusinessConfigDAO
pub record ConfigDao {ℓ} (S : Type ℓ) : Type ℓ where
  pub get_by_ids : List ℤ → Effect S (List (ℤ × Row))
  pub get_by_id : ℤ → Effect S Row
  pub delete_by_id : ℤ → Effect S (Unit {0})
  pub save_config : Row → Effect S Row
  pub find_page : ℤ → ℤ → Effect S (List Row)

-- the row that SaveConfig of the DAO inserts, and returns, at the time `now` in milliseconds
unfoldable pub stamped : ℤ → Row → Row
stamped now row = record row { ctime = now; utime = now }

-- The columns that the upsert of SaveConfig assigns to a row that is there.
unfoldable pub upserted : Row → Row → Row
upserted new old = record old {
  owner_id = new.owner_id;
  owner_type = new.owner_type;
  channel_config = new.channel_config;
  txn_config = new.txn_config;
  rate_limit = new.rate_limit;
  quota = new.quota;
  callback_config = new.callback_config;
  utime = new.utime;
}

-- the map of the rows by their IDs
unfoldable pub rows_by_id : List Row → List (ℤ × Row) → List (ℤ × Row)
rows_by_id [] m = m
rows_by_id (row ∷ rows) m = rows_by_id rows (assign row.id row m)

module _ {ℓ} {S : Type ℓ} (t : ConfigTable S) where
  unfoldable pub get_rows : List ℤ → Effect S (List (ℤ × Row))
  unfolding rows_by_id
  get_rows ids s = bind_result (t.select_in ids s) λ rows s1. (ok (rows_by_id rows []), s1)

  unfoldable pub save_row : Row → Effect S Row
  unfolding stamped
  save_row row s =
      let (now, s1) = t.now_milli s in
      bind_result (t.upsert (stamped now row) s1) λ _ s2. (ok (stamped now row), s2)

  abbrev pub config_dao : ConfigDao S
  config_dao = record {
    get_by_ids = get_rows;
    get_by_id = t.select_first;
    delete_by_id = t.delete_where;
    save_config = save_row;
    find_page = λ offset limit. t.select_page offset limit;
  }
