-- ===== src/Config/Coherence.antt =====
-- What the caches may hold, and that a lookup through them agrees with the table.
use go_notification.Prelude.{◌≡◌, sym, ap, subst, ◌∙◌, ◌⊎◌, inl, inr, ℤ, Option, some}
use go_notification.Errs.{Result, ok, err, Result-cases}
use go_notification.Effect.{recover-elim}
use go_notification.Domain.Tx.{BusinessConfig}
use go_notification.Config.Entities.{Row, to_domain}
use go_notification.Config.Cache.{ConfigCache}
use go_notification.Config.Repository.{
  ConfigRepository, refresh_local, loaded, get_from_dao, get_from_redis, get_by_id,
}

-- what a state holds in the caches and in the table, by ID
pub record View {ℓ} (S : Type ℓ) : Type ℓ where
  pub local : S → ℤ → Option BusinessConfig
  pub redis : S → ℤ → Option BusinessConfig
  pub table : S → ℤ → Option BusinessConfig

module _ {ℓ} {S : Type ℓ} (v : View S) where
  abbrev pub Cached : S → ℤ → BusinessConfig → Type 0
  Cached s id c = (v.local s id ≡ some c) ⊎ (v.redis s id ≡ some c)

  -- whatever is cached is what the table holds
  abbrev pub Coherent : S → Type 0
  Coherent s = (id : ℤ) (c : BusinessConfig) → Cached s id c → v.table s id ≡ some c

  -- entries may be lost, and the table stays
  pub record Loses (s s' : S) : Type 0 where
    pub cached_before : (id : ℤ) (c : BusinessConfig) → Cached s' id c → Cached s id c
    pub same_table : (id : ℤ) → v.table s' id ≡ v.table s id

  -- no entry is new but that of `cfg`, and the table stays
  pub record Adds (cfg : BusinessConfig) (s s' : S) : Type 0 where
    pub given_or_before :
        (id : ℤ) (c : BusinessConfig) → Cached s' id c → ((cfg.id ≡ id) × (cfg ≡ c)) ⊎ Cached s id c
    pub kept_table : (id : ℤ) → v.table s' id ≡ v.table s id

  Loses-Coherent : {s s' : S} → Loses s s' → Coherent s → Coherent s'
  Loses-Coherent l h id c cached = l.same_table id ∙ h id c (l.cached_before id c cached)

  Adds-Coherent :
      {s s' : S} (cfg : BusinessConfig)
      → Adds cfg s s'
      → v.table s cfg.id ≡ some cfg
      → Coherent s
      → Coherent s'
  Adds-Coherent {s} cfg a there h id c cached = elim (a.given_or_before id c cached) [
    | inl (same_id, same) ↦ a.kept_table id ∙ (rw (← same_id) (there ∙ ap (λ x. some x) same))
    | inr before ↦ a.kept_table id ∙ h id c before
  ]

-- What the repository relies on: a cache answers with what it holds, loses entries at most when it is
-- read, and adds at most what it is given; the table answers with what it holds, under its own ID.
pub record IsHonest {ℓ} {S : Type ℓ} (b : ConfigRepository S) (v : View S) : Type ℓ where
  pub local-get :
      (id : ℤ) (s : S) (c : BusinessConfig)
      → (b.local_cache.get id s).0 ≡ ok c
      → v.local s id ≡ some c
  pub redis-get :
      (id : ℤ) (s : S) (c : BusinessConfig)
      → (b.redis_cache.get id s).0 ≡ ok c
      → v.redis s id ≡ some c
  pub dao-get :
      (id : ℤ) (s : S) (row : Row)
      → (b.dao.get_by_id id s).0 ≡ ok row
      → v.table s id ≡ some (to_domain row)
  pub keyed : (id : ℤ) (s : S) (c : BusinessConfig) → v.table s id ≡ some c → c.id ≡ id
  pub local-get-Loses : (id : ℤ) (s : S) → Loses v s (b.local_cache.get id s).1
  pub redis-get-Loses : (id : ℤ) (s : S) → Loses v s (b.redis_cache.get id s).1
  pub dao-get-Loses : (id : ℤ) (s : S) → Loses v s (b.dao.get_by_id id s).1
  pub local-set-Adds : (c : BusinessConfig) (s : S) → Adds v c s (b.local_cache.set c s).1
  pub redis-set-Adds : (c : BusinessConfig) (s : S) → Adds v c s (b.redis_cache.set c s).1

module _ {ℓ} {S : Type ℓ} (b : ConfigRepository S) (v : View S) (honest : IsHonest b v) where
  open honest use {
    local-get, redis-get, dao-get, keyed, local-get-Loses, redis-get-Loses, dao-get-Loses,
    local-set-Adds, redis-set-Adds,
  }

  -- a result agrees with the table of the state in which it is returned, and the caches do
  abbrev pub Agrees : ℤ → Result BusinessConfig × S → Type 0
  Agrees id (ok c, s) = (v.table s id ≡ some c) × Coherent v s
  Agrees id (err _, s) = Coherent v s

  refreshed :
      (cache : ConfigCache S) (id : ℤ) (c : BusinessConfig) (s : S)
      → Adds v c s (cache.set c s).1
      → v.table s id ≡ some c
      → Coherent v s
      → Agrees id (ok c, (cache.set c s).1)
  refreshed cache id c s a there h = (
    a.kept_table id ∙ there,
    Adds-Coherent v c a (subst (λ k. v.table s k ≡ some c) (sym (keyed id s c there)) there) h,
  )

  loaded-Agrees :
      (id : ℤ) (row : Row) (s : S)
      → v.table s id ≡ some (to_domain row)
      → Coherent v s
      → Agrees id (loaded b row s)
  unfolding loaded
  loaded-Agrees id row s there h =
      let first =
        refreshed b.local_cache id (to_domain row) s (local-set-Adds (to_domain row) s) there h in
      let s1 = (b.local_cache.set (to_domain row) s).1 in
      refreshed b.redis_cache id (to_domain row) s1 (redis-set-Adds (to_domain row) s1) first.0
        first.1

  -- by the answer of the call that `next` takes
  get_from_dao-Agrees : (id : ℤ) (s : S) → Coherent v s → Agrees id (get_from_dao b id s)
  unfolding get_from_dao
  get_from_dao-Agrees id s h =
      let l = dao-get-Loses id s in
      elim (Result-cases (b.dao.get_by_id id s).0) [
        | inl (row, got) ↦ rw got (
            loaded-Agrees id row (b.dao.get_by_id id s).1 (l.same_table id ∙ dao-get id s row got)
              (Loses-Coherent v l h))
        | inr (e, failed) ↦ rw failed (Loses-Coherent v l h)
      ]

  get_from_redis-Agrees : (id : ℤ) (s : S) → Coherent v s → Agrees id (get_from_redis b id s)
  unfolding get_from_redis
  get_from_redis-Agrees id s h =
      let l = redis-get-Loses id s in
      let s1 = (b.redis_cache.get id s).1 in
      recover-elim (Agrees id) (b.redis_cache.get id s) (λ c s'. (ok c, refresh_local b c s'))
        (get_from_dao b id)
        (λ c got.
          refreshed b.local_cache id c s1 (local-set-Adds c s1)
            (l.same_table id ∙ h id c (inr (redis-get id s c got))) (Loses-Coherent v l h))
        (λ e failed. get_from_dao-Agrees id s1 (Loses-Coherent v l h))

  -- While everything cached is what the table holds, GetByID finds what the table holds under the ID,
  -- or fails, on each of its three levels; and everything cached is what the table holds afterwards.
  pub get_by_id-Agrees : (id : ℤ) (s : S) → Coherent v s → Agrees id (get_by_id b id s)
  unfolding get_by_id
  get_by_id-Agrees id s h =
      let l = local-get-Loses id s in
      recover-elim (Agrees id) (b.local_cache.get id s) (λ c s'. (ok c, s')) (get_from_redis b id)
        (λ c got. (l.same_table id ∙ h id c (inl (local-get id s c got)), Loses-Coherent v l h))
        (λ e failed. get_from_redis-Agrees id (b.local_cache.get id s).1 (Loses-Coherent v l h))
