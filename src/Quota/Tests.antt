-- ===== src/Quota/Tests.antt =====
-- A counter in the state, a table of one business, and the theorems about them.
use go_notification.Prelude.{
  ◌≡◌, ◌↔◌, refl, [], ◌∷◌, ℕ, suc, none, some, ℤ, pos, ◌-ℤ◌, ◌<ℤ◌, eqb_ℤ, if◌then◌else◌,
}
use go_notification.Errs.{ok}
use go_notification.Domain.Notification.{sms}
use go_notification.Domain.Tx.{BusinessConfig}
use go_notification.Quota.Counters.{QuotaCommands, decr}
use go_notification.Quota.Reset.{ResetServices, start}
use go_notification.Quota.Laws.{decr-counter, start-nothing}

-- one counter, for every key
abbrev counting : QuotaCommands ℤ
counting = record {
  mset = λ args s. (ok tt, s);
  get_int = λ k s. (ok s, s);
  incr_script = λ k n s. (ok tt, s);
  decr_by = λ k n s. (ok (s -ℤ n), s -ℤ n);
  batch_incr_script = λ ks ns s. (ok tt, s);
  batch_decr_script = λ ks ns s. (ok none, s);
}

-- the last of a quota of three
decr-counter_example :
    (((decr counting (pos 1) sms (pos 3) (pos 3)).0 ≡ ok tt) ↔ (pos 3 <ℤ pos 3))
    × ((decr counting (pos 1) sms (pos 3) (pos 3)).1 ≡ pos 3 -ℤ pos 3)
decr-counter_example = decr-counter counting (λ s k. s) (pos 1) sms (pos 3) (pos 3) refl refl

abbrev office : BusinessConfig
office = record {
  id = pos 7;
  owner_id = pos 3;
  owner_type = "organization";
  channel_config = none;
  txn_config = none;
  rate_limit = pos 10;
  quota = some (record { monthly = record { sms = pos 100; email = pos 200 } });
  callback_config = none;
  ctime = pos 0;
  utime = pos 0;
}

-- the state counts the quotas saved
abbrev offices : ResetServices ℕ
offices = record {
  find_page = λ offset limit s. (ok (if eqb_ℤ limit (pos 0) then [] else office ∷ []), s);
  save_quotas = λ quotas s. (ok tt, suc s);
}

start-nothing_example : start offices 1 0 ≡ some 0
start-nothing_example = start-nothing offices 0 0 refl
