-- ===== src/Config/Entities.antt =====
-- internal/repository/dao/config.go, internal/pkg/sqlx/json.go and the conversions of
-- internal/repository/config.go: a row of business_configs, whose JSON columns may be NULL.
use Prim.Native.String.{String}
use go_notification.Prelude.{◌≡◌, refl, Bool, true, false, [], Option, none, some, ℤ, pos, arith}
use go_notification.Domain.Tx.{
  BusinessConfig, ChannelConfig, TxnConfig, QuotaConfig, CallbackConfig,
}

pub record JsonColumn {ℓ} (A : Type ℓ) : Type ℓ where
  pub val : A
  pub valid : Bool

pub record Row : Type 0 where
  pub id : ℤ
  pub owner_id : ℤ
  pub owner_type : String
  pub channel_config : JsonColumn ChannelConfig
  pub txn_config : JsonColumn TxnConfig
  pub rate_limit : ℤ
  pub quota : JsonColumn QuotaConfig
  pub callback_config : JsonColumn CallbackConfig
  pub ctime : ℤ
  pub utime : ℤ

-- the zero values of Go, which stand in a column that is not valid
abbrev pub zero_channel_config : ChannelConfig
zero_channel_config = record { channels = []; retry_policy = none }

abbrev pub zero_txn_config : TxnConfig
zero_txn_config = record { service_name = ""; initial_delay = pos 0; retry_policy = none }

abbrev pub zero_quota : QuotaConfig
zero_quota = record { monthly = record { sms = pos 0; email = pos 0 } }

abbrev pub zero_callback_config : CallbackConfig
zero_callback_config = record { service_name = ""; retry_policy = none }

abbrev pub pointer {ℓ} : {A : Type ℓ} → JsonColumn A → Option A
pointer column = elim column.valid [ true ↦ some column.val | false ↦ none ]

abbrev pub column {ℓ} : {A : Type ℓ} → A → Option A → JsonColumn A
column zero_value none = record { val = zero_value; valid = false }
column zero_value (some a) = record { val = a; valid = true }

unfoldable pub to_domain : Row → BusinessConfig
to_domain row = record {
  id = row.id;
  owner_id = row.owner_id;
  owner_type = row.owner_type;
  channel_config = pointer row.channel_config;
  txn_config = pointer row.txn_config;
  rate_limit = row.rate_limit;
  quota = pointer row.quota;
  callback_config = pointer row.callback_config;
  ctime = row.ctime;
  utime = row.utime;
}

unfoldable pub to_entity : BusinessConfig → Row
to_entity config = record {
  id = config.id;
  owner_id = config.owner_id;
  owner_type = config.owner_type;
  channel_config = column zero_channel_config config.channel_config;
  txn_config = column zero_txn_config config.txn_config;
  rate_limit = config.rate_limit;
  quota = column zero_quota config.quota;
  callback_config = column zero_callback_config config.callback_config;
  ctime = config.ctime;
  utime = config.utime;
}

pointer-column {ℓ} :
    {A : Type ℓ} (zero_value : A) (o : Option A) → pointer (column zero_value o) ≡ o
pointer-column zero_value none = refl
pointer-column zero_value (some a) = refl

-- A configuration that is stored is read back as it was, with each part that is nil still nil.
pub to_domain-to_entity : (config : BusinessConfig) → to_domain (to_entity config) ≡ config
unfolding to_domain to_entity
to_domain-to_entity config = ground (
  arith,
  pointer-column zero_channel_config config.channel_config,
  pointer-column zero_txn_config config.txn_config,
  pointer-column zero_quota config.quota,
  pointer-column zero_callback_config config.callback_config,
)
