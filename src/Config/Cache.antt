-- ===== src/Config/Cache.antt =====
-- internal/repository/cache: the interface of the two caches of configurations, and the key of a
-- configuration.
use go_notification.Prelude.{List, ℤ, ◌∷◌, [], ◌++◌}
use go_notification.Errs.{Err, failure}
use go_notification.Effect.{Effect}
use go_notification.Sharding.{Bytes, format_int}
use go_notification.Domain.Tx.{BusinessConfig}

-- a map from IDs to configurations
abbrev pub Configs : Type 0
Configs = List (ℤ × BusinessConfig)

-- cache.ConfigCache
pub record ConfigCache {ℓ} (S : Type ℓ) : Type ℓ where
  pub get : ℤ → Effect S BusinessConfig
  pub set : BusinessConfig → Effect S (Unit {0})
  pub delete : ℤ → Effect S (Unit {0})
  pub get_configs : List ℤ → Effect S Configs
  pub set_configs : List BusinessConfig → Effect S (Unit {0})

abbrev pub key_not_found : Err
key_not_found = failure 1

abbrev pub config_prefix : Bytes
config_prefix = b'c' ∷ b'o' ∷ b'n' ∷ b'f' ∷ b'i' ∷ b'g' ∷ []

unfoldable pub config_key : ℤ → Bytes
unfolding format_int
config_key biz_id = config_prefix ++ (b':' ∷ format_int biz_id)
