-- ===== src/Providers/Tests.antt =====
-- Providers of fixed answers, and the theorems about them.
use go_notification.Prelude.{
  ℕ, suc, ◌/◌, ◌≡◌, refl, Bool, true, false, [], ◌∷◌, replicate, none, pos, ◌==◌, arith,
}
use go_notification.Errs.{Err, ok, err, failure}
use go_notification.Effect.{Effect}
use go_notification.Domain.Notification.{Notification, sending}
use go_notification.Domain.Tests.{greeting}
use go_notification.Api.Convert.{SendResponse}
use go_notification.Providers.Health.{new_mprovider, after_sends, after_sends-healthy}
use go_notification.Providers.Balance.{send, send-Failed}
use go_notification.Providers.Channel.{Provider, base_channel_send, base_channel_send-stuck}

abbrev tenth : ℕ → ℕ
tenth n = n / 10

after_sends-healthy_example :
    (after_sends (replicate 200 false) (new_mprovider tenth 2)).healthy ≡ true
after_sends-healthy_example =
    after_sends-healthy tenth 2 (replicate 200 false) (omega arith) (omega arith)

-- the state counts the notifications sent
abbrev succeeds : ℕ → Notification → Effect ℕ SendResponse
succeeds idx n s = (ok (record { notification_id = pos 1; status = sending }), suc s)

-- only the second provider is healthy
abbrev second_only : ℕ → ℕ → Bool
second_only idx s = idx == 1

send-Failed_example : (e : Err) × ((send second_only succeeds 0 3 greeting 0).0 ≡ err e)
send-Failed_example = send-Failed second_only succeeds 0 3 greeting 0

abbrev refuses : Provider ℕ
refuses n s = (err (failure 1), suc s)

base_channel_send-stuck_example : base_channel_send 5 (refuses ∷ succeeds 1 ∷ []) greeting 0 ≡ none
base_channel_send-stuck_example =
    base_channel_send-stuck 5 refuses (succeeds 1 ∷ []) greeting 0 (λ s. (failure 1, refl))
