-- ===== src/Config/Repository.antt =====
-- internal/repository/config.go: the operations of the repository of configurations.
use go_notification.Prelude.{
  ℕ, zero, suc, List, [], ◌∷◌, map, length, Option, none, some, ℤ, pos, ltb_ℤ, wrap64, ◌+ℤ◌, find,
  assign_all, values, is_some, if◌then◌else◌,
}
use go_notification.Errs.{Result, ok, err}
use go_notification.Effect.{Effect, bind_result, recover}
use go_notification.Domain.Notification.{is_empty}
use go_notification.Domain.Tx.{BusinessConfig}
use go_notification.Config.Entities.{Row, to_domain, to_entity}
use go_notification.Config.Dao.{ConfigDao}
use go_notification.Config.Cache.{ConfigCache, Configs}

pub record ConfigRepository {ℓ} (S : Type ℓ) : Type ℓ where
  pub dao : ConfigDao S
  pub local_cache : ConfigCache S
  pub redis_cache : ConfigCache S

-- the IDs that a map has no entry for
unfoldable pub diff_ids : List ℤ → Configs → List ℤ
diff_ids [] m = []
diff_ids (id ∷ ids) m = let rest = diff_ids ids m in if is_some (find id m) then rest else id ∷ rest

-- what a cache found, and nothing if it failed
abbrev pub found_or_empty : Result Configs → Configs
found_or_empty (ok m) = m
found_or_empty (err _) = []

abbrev pub page_limit : ℤ
page_limit = pos 10

module _ {ℓ} {S : Type ℓ} (b : ConfigRepository S) where
  -- an error of a cache is logged and dropped
  abbrev pub refresh_local : BusinessConfig → S → S
  refresh_local cfg s = (b.local_cache.set cfg s).1

  abbrev pub refresh_redis : BusinessConfig → S → S
  refresh_redis cfg s = (b.redis_cache.set cfg s).1

  -- the row that was found goes into both caches
  unfoldable pub loaded : Row → Effect S BusinessConfig
  loaded row s = let cfg = to_domain row in (ok cfg, refresh_redis cfg (refresh_local cfg s))

  -- GetByID after both caches missed, and after the local one missed
  unfoldable pub get_from_dao : ℤ → Effect S BusinessConfig
  unfolding loaded
  get_from_dao id s = bind_result (b.dao.get_by_id id s) (λ row s1. loaded row s1)

  unfoldable pub get_from_redis : ℤ → Effect S BusinessConfig
  unfolding get_from_dao
  get_from_redis id s =
      recover (b.redis_cache.get id s) (λ cfg s1. (ok cfg, refresh_local cfg s1)) (get_from_dao id)

  unfoldable pub get_by_id : ℤ → Effect S BusinessConfig
  unfolding get_from_redis
  get_by_id id s = recover (b.local_cache.get id s) (λ cfg s1. (ok cfg, s1)) (get_from_redis id)

  -- the configurations of the rows are put into both caches, and Redis's error is passed on
  unfoldable pub write_back : List BusinessConfig → Effect S (Unit {0})
  write_back configs s =
      if is_empty configs
      then (ok tt, s)
      else b.redis_cache.set_configs configs (b.local_cache.set_configs configs s).1

  -- The end of GetByIDs: the rows are put into the caches, and the result is what the caches had. The
  -- result that the code returns beside the error of Redis is left out.
  unfoldable pub complete : List ℤ → Configs → Effect S Configs
  unfolding diff_ids write_back
  complete ids result s =
      bind_result (b.dao.get_by_ids (diff_ids ids result) s)
        λ rows s1. bind_result (write_back (map to_domain (values rows)) s1) λ _ s2. (ok result, s2)

  -- what Redis had is added to the result and put into the local cache
  unfoldable pub add_from_redis : Result Configs → Configs → S → Configs × S
  add_from_redis (err _) result s = (result, s)
  add_from_redis (ok m) result s = (assign_all m result, (b.local_cache.set_configs (values m) s).1)

  unfoldable pub get_missing : List ℤ → Configs → Effect S Configs
  unfolding diff_ids add_from_redis complete
  get_missing ids result s =
      let (cached, s1) = b.redis_cache.get_configs (diff_ids ids result) s in
      let (result', s2) = add_from_redis cached result s1 in complete ids result' s2

  unfoldable pub get_by_ids : List ℤ → Effect S Configs
  unfolding diff_ids get_missing
  get_by_ids ids s =
      let (cached, s1) = b.local_cache.get_configs ids s in
      let result = found_or_empty cached in
      if is_empty (diff_ids ids result) then (ok result, s1) else get_missing ids result s1

  unfoldable pub delete_by_id : ℤ → Effect S (Unit {0})
  delete_by_id id s =
      bind_result (b.dao.delete_by_id id s)
        λ _ s1. (ok tt, (b.local_cache.delete id (b.redis_cache.delete id s1).1).1)

  unfoldable pub save_config : BusinessConfig → Effect S (Unit {0})
  save_config config s =
      bind_result (b.dao.save_config (to_entity config) s)
        λ row s1. (ok tt, refresh_local (to_domain row) (refresh_redis (to_domain row) s1))

  -- The rows that the DAO returns beside an error are dropped by loadCacheBatch, the only caller
  -- that looks at them.
  unfoldable pub find_configs : ℤ → ℤ → Effect S (List BusinessConfig)
  find_configs offset limit s =
      bind_result (b.dao.find_page offset limit s) λ rows s1. (ok (map to_domain rows), s1)

  unfoldable pub load_cache_batch : ℤ → ℤ → Effect S ℤ
  unfolding find_configs
  load_cache_batch offset limit s =
      bind_result (find_configs offset limit s)
        λ res s1. bind_result (b.local_cache.set_configs res s1) λ _ s2. (ok (pos (length res)), s2)

  -- The loop of LoadCache, which ends only after a page that is not full; `none` means that the fuel
  -- ran out. After an error it asks for the same page again.
  unfoldable pub load_cache_from : ℕ → ℤ → S → Option S
  unfolding load_cache_batch
  load_cache_from zero offset s = none
  load_cache_from (suc fuel) offset s =
      let (loaded_rows, s1) = load_cache_batch offset page_limit s in
      elim loaded_rows [
        | err _ ↦ load_cache_from fuel offset s1
        | ok cnt ↦
            let rest = load_cache_from fuel (wrap64 (offset +ℤ page_limit)) s1 in
            if ltb_ℤ cnt page_limit then some s1 else rest
      ]

  unfoldable pub load_cache : ℕ → S → Option S
  unfolding load_cache_from
  load_cache fuel s = load_cache_from fuel (pos 0) s
