-- ===== src/Config/Batches.antt =====
-- What a batch of lookups can find.
use go_notification.Prelude.{
  ◌≡◌, refl, subst, inl, inr, Bool-cases, List, ℤ, some, find, find-assign_all, map, values,
}
use go_notification.Errs.{Result, ok, err}
use go_notification.Effect.{bind_result-elim}
use go_notification.Domain.Notification.{is_empty}
use go_notification.Domain.Tx.{BusinessConfig}
use go_notification.Config.Entities.{to_domain}
use go_notification.Config.Cache.{Configs}
use go_notification.Config.Repository.{
  ConfigRepository, diff_ids, found_or_empty, complete, add_from_redis, get_missing, get_by_ids,
  write_back,
}
use go_notification.Config.Coherence.{View, Cached, Loses}

-- A batch from a cache holds only what the cache holds, and reading it loses entries at most.
pub record HasHonestBatches {ℓ} {S : Type ℓ} (b : ConfigRepository S) (v : View S) : Type ℓ where
  pub local-get_configs :
      (ids : List ℤ) (s : S) (m : Configs) (id : ℤ) (c : BusinessConfig)
      → (b.local_cache.get_configs ids s).0 ≡ ok m
      → find id m ≡ some c
      → v.local s id ≡ some c
  pub redis-get_configs :
      (ids : List ℤ) (s : S) (m : Configs) (id : ℤ) (c : BusinessConfig)
      → (b.redis_cache.get_configs ids s).0 ≡ ok m
      → find id m ≡ some c
      → v.redis s id ≡ some c
  pub local-get_configs-Loses :
      (ids : List ℤ) (s : S) → Loses v s (b.local_cache.get_configs ids s).1

module _ {ℓ} {S : Type ℓ} (b : ConfigRepository S) (v : View S)
    (honest : HasHonestBatches b v) where
  open honest use {local-get_configs, redis-get_configs, local-get_configs-Loses}

  -- every entry was cached in the state `s`
  abbrev WasCached : S → Configs → Type 0
  WasCached s m = (id : ℤ) (c : BusinessConfig) → find id m ≡ some c → Cached v s id c

  abbrev AllCached : S → Result Configs → Type 0
  AllCached s (ok m) = WasCached s m
  AllCached s (err _) = Unit

  found_or_empty-WasCached :
      (s : S) (r : Result Configs)
      → ((m : Configs) → r ≡ ok m → WasCached s m)
      → WasCached s (found_or_empty r)
  unfolding find
  found_or_empty-WasCached s (ok m) h = h m refl
  found_or_empty-WasCached s (err e) h = λ id c found. cc

  complete-AllCached :
      (s s' : S) (ids : List ℤ) (result : Configs)
      → WasCached s result
      → AllCached s (complete b ids result s').0
  unfolding complete
  complete-AllCached s s' ids result h =
      bind_result-elim (AllCached s) (b.dao.get_by_ids (diff_ids ids result) s') _ (λ e failed. tt)
        (λ rows got.
          bind_result-elim (AllCached s)
            (write_back b (map to_domain (values rows))
              (b.dao.get_by_ids (diff_ids ids result) s').1)
            (λ u s2. (ok result, s2)) (λ e failed. tt) (λ u written. h))

  add_from_redis-WasCached :
      (s s' : S) (r : Result Configs) (result : Configs)
      → ((m : Configs) → r ≡ ok m → WasCached s m)
      → WasCached s result
      → WasCached s (add_from_redis b r result s').0
  unfolding add_from_redis
  add_from_redis-WasCached s s' (err e) result h k = k
  add_from_redis-WasCached s s' (ok m) result h k = λ id c found.
      elim (find-assign_all id m result c found) [
        | inl new ↦ h m refl id c new
        | inr old ↦ k id c old
      ]

  get_missing-AllCached :
      (s s' : S) (ids : List ℤ) (result : Configs)
      → Loses v s s'
      → WasCached s result
      → AllCached s (get_missing b ids result s').0
  unfolding get_missing
  get_missing-AllCached s s' ids result l h =
      let asked = b.redis_cache.get_configs (diff_ids ids result) s' in
      complete-AllCached s (add_from_redis b asked.0 result asked.1).1 ids
        (add_from_redis b asked.0 result asked.1).0
        (add_from_redis-WasCached s asked.1 asked.0 result
          (λ m got id c found. l.cached_before id c (inr (redis-get_configs _ s' m id c got found)))
          h)

  get_by_ids-AllCached : (ids : List ℤ) (s : S) → AllCached s (get_by_ids b ids s).0
  unfolding get_by_ids
  get_by_ids-AllCached ids s =
      let asked = b.local_cache.get_configs ids s in
      let h =
        found_or_empty-WasCached s asked.0
          (λ m got id c found. inl (local-get_configs ids s m id c got found)) in
      elim (Bool-cases (is_empty (diff_ids ids (found_or_empty asked.0)))) [
        | inl none_missing ↦ rw none_missing h
        | inr missing ↦ rw missing (
            get_missing-AllCached s asked.1 ids (found_or_empty asked.0)
              (local-get_configs-Loses ids s) h)
      ]

  -- GetByIDs finds nothing that was not in one of the caches before the call: the rows that it reads
  -- from the database are put into the caches, and not into its result.
  pub get_by_ids-Cached :
      (ids : List ℤ) (s : S) (m : Configs) (id : ℤ) (c : BusinessConfig)
      → (get_by_ids b ids s).0 ≡ ok m
      → find id m ≡ some c
      → Cached v s id c
  get_by_ids-Cached ids s m id c got found =
      subst (AllCached s) got (get_by_ids-AllCached ids s) id c found
