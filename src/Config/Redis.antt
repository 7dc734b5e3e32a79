-- ===== src/Config/Redis.antt =====
-- internal/repository/cache/redis/config.go: the cache in Redis, with JSON for the configurations.
use go_notification.Prelude.{
  ◌≡◌, ◌∙◌, List, [], ◌∷◌, map, Option, none, some, ℤ, find, assign, eqb_ℤ, eqb_ℤ→eq, if◌then◌else◌,
  sym, ap, found-cases, inl, inr, Option-cases, subst,
}
use go_notification.Errs.{Result, ok, err, Result-cases, ok_injective}
use go_notification.Effect.{Effect, bind_result, bind_result-elim}
use go_notification.Domain.Notification.{is_empty}
use go_notification.Domain.Tx.{BusinessConfig}
use go_notification.Sharding.{Bytes}
use go_notification.Config.Cache.{ConfigCache, Configs, config_key, key_not_found}

-- The commands of Redis, where `none` is redis.Nil, and encoding/json. A value of MGET that is not a
-- text is `none` too, since the code passes over both.
pub record Redis {ℓ} (S : Type ℓ) : Type ℓ where
  pub get_command : Bytes → Effect S (Option Bytes)
  pub set_command : Bytes → Bytes → Effect S (Unit {0})
  pub del_command : Bytes → Effect S (Unit {0})
  pub mget : List Bytes → Effect S (List (Option Bytes))
  pub exec_sets : List (Bytes × Bytes) → Effect S (Unit {0})
  pub marshal : BusinessConfig → Result Bytes
  pub unmarshal : Bytes → Result BusinessConfig

module _ {ℓ} {S : Type ℓ} (client : Redis S) where
  abbrev parsed : Option Bytes → Result BusinessConfig
  parsed none = err key_not_found
  parsed (some val) = client.unmarshal val

  unfoldable pub get_redis : ℤ → Effect S BusinessConfig
  unfolding config_key
  get_redis biz_id s =
      bind_result (client.get_command (config_key biz_id) s) λ val s'. (parsed val, s')

  unfoldable pub set_redis : BusinessConfig → Effect S (Unit {0})
  unfolding config_key
  set_redis cfg s =
      bind_result (client.marshal cfg, s) λ text s'. client.set_command (config_key cfg.id) text s'

  unfoldable pub delete_redis : ℤ → Effect S (Unit {0})
  unfolding config_key
  delete_redis biz_id s = client.del_command (config_key biz_id) s

  -- a value that is missing or does not parse is passed over
  abbrev assign_parsed : ℤ → Result BusinessConfig → Configs → Configs
  assign_parsed biz_id (err _) res = res
  assign_parsed biz_id (ok cfg) res = assign biz_id cfg res

  -- the loop over the values, of which MGET returns one for each key
  unfoldable pub collect : List ℤ → List (Option Bytes) → Configs → Configs
  collect [] vals res = res
  collect (biz_id ∷ biz_ids) [] res = res
  collect (biz_id ∷ biz_ids) (val ∷ vals) res =
      collect biz_ids vals (assign_parsed biz_id (parsed val) res)

  unfoldable pub get_configs_redis : List ℤ → Effect S Configs
  unfolding config_key collect
  get_configs_redis biz_ids s =
      if is_empty biz_ids
      then (ok [], s)
      else bind_result (client.mget (map config_key biz_ids) s)
          (λ vals s'. (ok (collect biz_ids vals []), s'))

  -- the commands of the pipeline, up to a configuration that cannot be encoded
  unfoldable pub queued : List BusinessConfig → Result (List (Bytes × Bytes))
  unfolding config_key
  queued [] = ok []
  queued (cfg ∷ cfgs) = elim (client.marshal cfg) [
    | err e ↦ err e
    | ok text ↦ elim (queued cfgs) [
      | err e ↦ err e
      | ok rest ↦ ok ((config_key cfg.id, text) ∷ rest)
    ]
  ]

  unfoldable pub set_configs_redis : List BusinessConfig → Effect S (Unit {0})
  unfolding queued
  set_configs_redis cfgs s =
      if is_empty cfgs
      then (ok tt, s)
      else bind_result (queued cfgs, s) (λ commands s'. client.exec_sets commands s')

  abbrev pub redis_config_cache : ConfigCache S
  redis_config_cache = record {
    get = get_redis;
    set = set_redis;
    delete = delete_redis;
    get_configs = get_configs_redis;
    set_configs = set_configs_redis;
  }

  -- the entries are what Redis holds under their keys
  abbrev Held : (Bytes → Option Bytes) → Configs → Type 0
  Held held res =
      (id : ℤ) (c : BusinessConfig)
      → find id res ≡ some c
      → (text : Bytes) × ((held (config_key id) ≡ some text) × (client.unmarshal text ≡ ok c))

  abbrev AllHeld : (Bytes → Option Bytes) → Result Configs → Type 0
  AllHeld held (ok res) = Held held res
  AllHeld held (err _) = Unit

  assign_parsed-Held :
      (held : Bytes → Option Bytes) (id : ℤ) (res : Configs)
      → Held held res
      → Held held (assign_parsed id (parsed (held (config_key id))) res)
  unfolding find
  assign_parsed-Held held id res h = elim (Option-cases (held (config_key id))) [
    | inl nil ↦ rw nil h
    | inr (text, there) ↦ elim (Result-cases (client.unmarshal text)) [
      | inr (e, broken) ↦ rw (there, broken) h
      | inl (cfg, read) ↦
          rw (there, read)
            (λ id' c found. elim (found-cases (eqb_ℤ id id') cfg c (find id' res) found) [
              | inl (same, value) ↦ (
                text,
                (
                  ap (λ k. held (config_key k)) (sym (eqb_ℤ→eq id id' same)) ∙ there,
                  read ∙ ap (λ x. ok x) value,
                ),
              )
              | inr (other, later) ↦ h id' c later
            ])
    ]
  ]

  collect-Held :
      (held : Bytes → Option Bytes) (ids : List ℤ) (res : Configs)
      → Held held res
      → Held held (collect ids (map held (map config_key ids)) res)
  unfolding collect
  collect-Held held [] res h = h
  collect-Held held (id ∷ ids) res h =
      collect-Held held ids (assign_parsed id (parsed (held (config_key id))) res)
        (assign_parsed-Held held id res h)

  -- If MGET answers with what Redis holds, a batch of configurations has under each ID what the text
  -- under that ID's own key decodes to, whatever else is missing or broken.
  get_configs_redis-held :
      (held : Bytes → Option Bytes) (ids : List ℤ) (s : S) (m : Configs) (id : ℤ)
      (c : BusinessConfig)
      → ((keys : List Bytes) (s : S) → (client.mget keys s).0 ≡ ok (map held keys))
      → (get_configs_redis ids s).0 ≡ ok m
      → find id m ≡ some c
      → (text : Bytes) × ((held (config_key id) ≡ some text) × (client.unmarshal text ≡ ok c))
  unfolding get_configs_redis find
  get_configs_redis-held held [] s m id c mget got found = cc
  get_configs_redis-held held (i ∷ ids) s m id c mget got found =
      subst (AllHeld held) got
        (bind_result-elim (AllHeld held) (client.mget (map config_key (i ∷ ids)) s)
          (λ vals s'. (ok (collect (i ∷ ids) vals []), s')) (λ e failed. tt)
          (λ vals answered.
            let same : map held (map config_key (i ∷ ids)) ≡ vals =
              ok_injective (sym (mget (map config_key (i ∷ ids)) s) ∙ answered) in
            subst (λ l. Held held (collect (i ∷ ids) l [])) same
              (collect-Held held (i ∷ ids) [] (λ id' c' none_found. cc))))
        id c found
