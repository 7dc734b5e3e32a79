-- ===== src/Config/Watch.antt =====
-- What the loop over the events of Redis can leave in the local cache.
use go_notification.Prelude.{◌≡◌, refl, sym, ap, ◌∙◌, [], ◌∷◌, ◌++◌, none, some, ℤ, pos, arith}
use go_notification.Errs.{Err, ok, err}
use go_notification.Effect.{recover-elim}
use go_notification.Sharding.{Bytes}
use go_notification.Domain.Tx.{BusinessConfig}
use go_notification.Config.Cache.{config_key}
use go_notification.Config.Local.{
  GoCache, config, set_event, Published, after_colon, get_local, local_config_cache,
  handler_config_change, handle_message,
}
use go_notification.Config.Repository.{ConfigRepository, get_by_id, get_from_redis}

-- the zero value of a configuration
abbrev pub zero_config : BusinessConfig
zero_config = record {
  id = pos 0;
  owner_id = pos 0;
  owner_type = "";
  channel_config = none;
  txn_config = none;
  rate_limit = pos 0;
  quota = none;
  callback_config = none;
  ctime = pos 0;
  utime = pos 0;
}

after_colon-append :
    (prefix rest : Bytes)
    → after_colon prefix ≡ none
    → after_colon (prefix ++ (b':' ∷ rest)) ≡ some rest
unfolding after_colon
after_colon-append [] rest h = refl
after_colon-append (b ∷ bs) rest h = ground (arith, after_colon-append bs rest)

-- a hit in the local cache is the result
pub get_by_id_of_local {ℓ} :
    {S : Type ℓ} (b : ConfigRepository S) (id : ℤ) (s : S) (cfg : BusinessConfig)
    → (b.local_cache.get id s).0 ≡ ok cfg
    → (get_by_id b id s).0 ≡ ok cfg
unfolding get_by_id
get_by_id_of_local b id s cfg hit =
    recover-elim (λ r. r.0 ≡ ok cfg) (b.local_cache.get id s) (λ c s'. (ok c, s'))
      (get_from_redis b id) (λ c got. sym got ∙ hit) (λ e missed. absurd (cc))

module _ {ℓ} {S : Type ℓ} (c : GoCache S) (rdb : Published S) (b : ConfigRepository S) where
  -- the repository with the local cache over go-cache
  abbrev pub with_local : ConfigRepository S
  with_local = record b { local_cache = local_config_cache c }

  handle_message-set :
      (prefix : Bytes) (id : ℤ) (s : S) (e : Err)
      → after_colon prefix ≡ none
      → (rdb.get_text (config_key id) s).0 ≡ err e
      → (rdb.decode []).1 ≡ zero_config
      → handle_message c rdb (prefix ++ (b':' ∷ config_key id)) set_event s
        ≡ c.set (config_key id) zero_config (rdb.get_text (config_key id) s).1
  unfolding handle_message handler_config_change
  handle_message-set prefix id s e no_colon failed decoded =
      rw (after_colon-append prefix (config_key id) no_colon, handle_message)
        (rw (failed, handler_config_change) (rw decoded refl))

  get_local-set :
      (id : ℤ) (cfg : BusinessConfig) (s : S)
      → ((key : Bytes) (cfg : BusinessConfig) (s : S)
          → (c.get key (c.set key cfg s)).0 ≡ some (config cfg))
      → (get_local c id (c.set (config_key id) cfg s)).0 ≡ ok cfg
  unfolding get_local
  get_local-set id cfg s kept = rw (kept (config_key id) cfg s) refl

  -- Redis says that the configuration of a business was set, and then fails to give it. If decoding
  -- the empty text leaves the zero configuration, and go-cache gives back what it was given last,
  -- then GetByID answers with the zero configuration, and without an error.
  pub get_by_id-handle_message :
      (prefix : Bytes) (id : ℤ) (s : S) (e : Err)
      → after_colon prefix ≡ none
      → (rdb.get_text (config_key id) s).0 ≡ err e
      → (rdb.decode []).1 ≡ zero_config
      → ((key : Bytes) (cfg : BusinessConfig) (s : S)
          → (c.get key (c.set key cfg s)).0 ≡ some (config cfg))
      → (get_by_id with_local id
          (handle_message c rdb (prefix ++ (b':' ∷ config_key id)) set_event s)).0
        ≡ ok zero_config
  get_by_id-handle_message prefix id s e no_colon failed decoded kept =
      let s' = (rdb.get_text (config_key id) s).1 in
      ap (λ t. (get_by_id with_local id t).0)
        (handle_message-set prefix id s e no_colon failed decoded)
      ∙ get_by_id_of_local with_local id (c.set (config_key id) zero_config s') zero_config
          (get_local-set id zero_config s' kept)
