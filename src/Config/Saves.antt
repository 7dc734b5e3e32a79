-- ===== src/Config/Saves.antt =====
-- What the caches hold after a business that is there was saved again.
use go_notification.Prelude.{◌≡◌, refl, ap, ◌∙◌, Option, some, ℤ}
use go_notification.Errs.{ok}
use go_notification.Domain.Tx.{BusinessConfig}
use go_notification.Config.Entities.{Row, to_domain, to_entity}
use go_notification.Config.Dao.{ConfigTable, config_dao, stamped, upserted, save_row}
use go_notification.Config.Repository.{ConfigRepository, get_by_id, save_config}
use go_notification.Config.Watch.{get_by_id_of_local}

module _ {ℓ} {S : Type ℓ} (t : ConfigTable S) (b : ConfigRepository S)
    (rows : S → ℤ → Option Row) where
  -- the repository with the DAO over the table
  abbrev pub with_dao : ConfigRepository S
  with_dao = record b { dao = config_dao t }

  -- The table and the caches work: the upsert changes a row that is there in the columns that it
  -- names, the caches leave the table alone, and the local cache answers with what it was given last.
  pub record Works (now : ℤ) (s s1 s2 : S) (saved : Row) : Type ℓ where
    pub clock : t.now_milli s ≡ (now, s1)
    pub same_rows : rows s1 ≡ rows s
    pub upsert-done : t.upsert saved s1 ≡ (ok tt, s2)
    pub upsert-row :
        (old : Row) → rows s1 saved.id ≡ some old → rows s2 saved.id ≡ some (upserted saved old)
    pub redis-rows : (c : BusinessConfig) (s : S) → rows (b.redis_cache.set c s).1 ≡ rows s
    pub local-rows : (c : BusinessConfig) (s : S) → rows (b.local_cache.set c s).1 ≡ rows s
    pub local-get-set :
        (c : BusinessConfig) (s : S) → (b.local_cache.get c.id (b.local_cache.set c s).1).0 ≡ ok c

  -- After a business that is in the table was saved again, GetByID answers with the time of the save
  -- as the time of creation, while the row keeps the time at which it was created.
  get_by_id-save_config :
      (now : ℤ) (config : BusinessConfig) (old : Row) (s s1 s2 : S)
      → Works now s s1 s2 (stamped now (to_entity config))
      → rows s config.id ≡ some old
      → let s' = (save_config with_dao config s).1 in
        (c : BusinessConfig) × (row : Row) × ((get_by_id with_dao config.id s').0 ≡ ok c)
        × (rows s' config.id ≡ some row)
        × (c.ctime ≡ now)
        × (row.ctime ≡ old.ctime)
  unfolding save_config save_row stamped upserted to_entity to_domain
  get_by_id-save_config now config old s s1 s2 w there =
      let row = stamped now (to_entity config) in
      let s3 = (b.redis_cache.set (to_domain row) s2).1 in
      (
        to_domain row,
        upserted row old,
        rw (w.clock, w.upsert-done)
            (get_by_id_of_local with_dao config.id (b.local_cache.set (to_domain row) s3).1
              (to_domain row) (w.local-get-set (to_domain row) s3)),
        rw (w.clock, w.upsert-done)
            (ap (λ r. r config.id)
                (w.local-rows (to_domain row) s3 ∙ w.redis-rows (to_domain row) s2)
              ∙ w.upsert-row old (ap (λ r. r config.id) w.same_rows ∙ there)),
        refl,
        refl,
      )
