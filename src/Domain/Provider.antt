-- ===== src/Domain/Provider.antt =====
-- internal/domain/provider.go (Provider): a provider of a channel, and its validation.
use Prim.Native.String.{String}
use text.Mathlib.Text.{◌==◌ as ◌=ˢ◌}
use go_notification.Prelude.{ℤ, pos, leb_ℤ, not}
use go_notification.Errs.{Result, ok, guard, ◌>>◌}
use go_notification.Domain.Strategy.{invalid}
use go_notification.Domain.Notification.{Channel, is_valid}

pub data ProviderStatus : Type 0 where
  active inactive : ProviderStatus
  other_provider_status : String → ProviderStatus

pub record Provider : Type 0 where
  pub id : ℤ
  pub name : String
  pub channel : Channel
  pub endpoint : String
  pub region_id : String
  pub api_key : String
  pub api_secret : String
  pub app_id : String
  pub weight : ℤ
  pub qps_limit : ℤ
  pub daily_limit : ℤ
  pub audit_callback_url : String
  pub status : ProviderStatus

unfoldable pub validate : Provider → Result (Unit {0})
validate p = do
  guard (p.name =ˢ "") invalid
  guard (not (is_valid p.channel)) invalid
  guard (p.endpoint =ˢ "") invalid
  guard (p.api_key =ˢ "") invalid
  guard (p.api_secret =ˢ "") invalid
  guard (leb_ℤ p.weight (pos 0)) invalid
  guard (leb_ℤ p.qps_limit (pos 0)) invalid
  guard (leb_ℤ p.daily_limit (pos 0)) invalid
  ok tt
