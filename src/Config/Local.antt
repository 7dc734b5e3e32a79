-- ===== src/Config/Local.antt =====
-- internal/repository/cache/local/config.go: the cache in the memory of the process, over the library
-- go-cache, and its loop over the events that Redis publishes.
use Prim.Native.String.{String}
use go_notification.Prelude.{List, [], ◌∷◌, Option, none, some, ℤ, assign, ◌==◌, if◌then◌else◌}
use go_notification.Errs.{Err, Result, ok, err, failure}
use go_notification.Effect.{Effect}
use go_notification.Sharding.{Bytes}
use go_notification.Domain.Tx.{BusinessConfig}
use go_notification.Config.Cache.{ConfigCache, Configs, config_key, key_not_found}

-- what go-cache holds: an interface value
pub data Stored : Type 0 where
  config : BusinessConfig → Stored
  other_value : Stored

-- go-cache, whose entries may expire, and the commands and events of Redis that the loop takes
pub record GoCache {ℓ} (S : Type ℓ) : Type ℓ where
  pub get : Bytes → S → Option Stored × S
  pub set : Bytes → BusinessConfig → S → S
  pub delete : Bytes → S → S

abbrev pub wrong_type : Err
wrong_type = failure 0

abbrev as_config : Option Stored → Result BusinessConfig
as_config none = err key_not_found
as_config (some (config cfg)) = ok cfg
as_config (some other_value) = err wrong_type

module _ {ℓ} {S : Type ℓ} (c : GoCache S) where
  unfoldable pub get_local : ℤ → Effect S BusinessConfig
  unfolding config_key
  get_local biz_id s = let (val, s') = c.get (config_key biz_id) s in (as_config val, s')

  unfoldable pub set_local : BusinessConfig → Effect S (Unit {0})
  unfolding config_key
  set_local cfg s = (ok tt, c.set (config_key cfg.id) cfg s)

  unfoldable pub delete_local : ℤ → Effect S (Unit {0})
  unfolding config_key
  delete_local biz_id s = (ok tt, c.delete (config_key biz_id) s)

  unfoldable pub get_configs_local : List ℤ → Configs → Effect S Configs
  unfolding config_key
  get_configs_local [] config_map s = (ok config_map, s)
  get_configs_local (biz_id ∷ rest) config_map s =
      let (val, s') = c.get (config_key biz_id) s in
      elim val [
        | none ↦ get_configs_local rest config_map s'
        | some (config cfg) ↦ get_configs_local rest (assign biz_id cfg config_map) s'
        | some other_value ↦ (err wrong_type, s')
      ]

  unfoldable pub set_configs_local : List BusinessConfig → Effect S (Unit {0})
  unfolding config_key
  set_configs_local [] s = (ok tt, s)
  set_configs_local (cfg ∷ cfgs) s = set_configs_local cfgs (c.set (config_key cfg.id) cfg s)

  abbrev pub local_config_cache : ConfigCache S
  local_config_cache = record {
    get = get_local;
    set = set_local;
    delete = delete_local;
    get_configs = λ biz_ids. get_configs_local biz_ids [];
    set_configs = set_configs_local;
  }

-- the payload of an event
pub data EventType : Type 0 where
  set_event del_event : EventType
  other_event : String → EventType

-- The part of a channel after its first colon: strings.SplitN(channel, ":", 2), second part.
unfoldable pub after_colon : Bytes → Option Bytes
after_colon [] = none
after_colon (b ∷ bs) = let later = after_colon bs in if b == b':' then some bs else later

-- Redis as the loop uses it: a text for a key, and what decoding it leaves in a configuration that is
-- zero at first, with or without an error. The error of GET leaves the empty text.
pub record Published {ℓ} (S : Type ℓ) : Type ℓ where
  pub get_text : Bytes → Effect S Bytes
  pub decode : Bytes → Result (Unit {0}) × BusinessConfig

abbrev pub text_of : Result Bytes → Bytes
text_of (ok text) = text
text_of (err _) = []

module _ {ℓ} {S : Type ℓ} (c : GoCache S) (rdb : Published S) where
  -- both errors are logged, and the configuration is stored all the same
  unfoldable pub handler_config_change : Bytes → EventType → S → S
  handler_config_change key set_event s =
      let (text, s') = rdb.get_text key s in c.set key (rdb.decode (text_of text)).1 s'
  handler_config_change key del_event s = c.delete key s
  handler_config_change key (other_event _) s = s

  -- a round of the loop
  unfoldable pub handle_message : Bytes → EventType → S → S
  unfolding after_colon handler_config_change
  handle_message channel payload s = elim (after_colon channel) [
    | none ↦ s
    | some key ↦ handler_config_change key payload s
  ]
