-- ===== src/Transactions/Tests.antt =====
-- Checks of concrete transactions, and the theorems about them.
use go_notification.Prelude.{
  ℕ, suc, ◌≡◌, refl, List, [], ◌∷◌, none, some, ℤ, pos, negsuc, ◌+ℤ◌, wrap64, Duration,
}
use go_notification.Errs.{Result, ok, err, failure}
use go_notification.Domain.Tests.{greeting}
use go_notification.Sending.Tests.{no_config}
use go_notification.Retry.{Config}
use go_notification.Domain.Tx
use go_notification.Domain.Tx.{TxNotification, TxnConfig, BusinessConfig, prepare}
use go_notification.Transactions.Check.{
  TaskServices, config_of, txn_config_of, answered, after_check, one_back_check,
}
use go_notification.Transactions.Loop.{no_buckets, classify, classify_as, check_all}
use go_notification.Transactions.Settled.{Outcome, Same, one_back_check-Outcome}
use go_notification.Transactions.Sorted.{Sorted, identities, check_all-Sorted}
use go_notification.Transactions.Service.{TxServices, commit, commit_sender}
use go_notification.Repository.Tests.{plain_json, counting_store}

abbrev policy : Config
policy = record {
  type_name = "fixed";
  fixed_interval = some (record { max_retries = pos 3; interval = pos 1000 });
  exponential_backoff = none;
}

abbrev txn_config : TxnConfig
txn_config = record { service_name = "orders"; initial_delay = pos 5; retry_policy = some policy }

abbrev configs : List (ℤ × BusinessConfig)
configs = (pos 7, record no_config { txn_config = some txn_config }) ∷ []

abbrev opened : TxNotification
opened = record {
  tx_id = pos 1;
  notification = greeting;
  biz_id = pos 7;
  key = "k1";
  status = prepare;
  check_count = pos 3;
  next_check_time = pos 100;
  ctime = pos 0;
  utime = pos 0;
}

-- the business answers as given
abbrev services : Result ℤ → TaskServices ℕ
services answer = record {
  now = λ s. (pos 0, s);
  find_check_back = λ offset limit s. (ok (opened ∷ []), s);
  get_by_ids = λ ids s. (ok configs, s);
  check = λ service key s. (answer, suc s);
  update_check_status = λ txns status s. (ok tt, s);
}

abbrev never : ℤ → Duration
never n = negsuc 9223372036854775807

abbrev committed : TxNotification
committed = record opened { check_count = pos 4; next_check_time = pos 0; status = Tx.commit }

one_back_check-Outcome_example : Outcome committed × Same opened committed
unfolding one_back_check txn_config_of config_of after_check answered wrap64 ◌+ℤ◌
one_back_check-Outcome_example =
    one_back_check-Outcome never (services (ok (pos 1))) configs opened committed 0 refl refl

check_all-Sorted_example :
    Sorted (identities (opened ∷ [])) (record no_buckets { committed = committed ∷ [] })
unfolding check_all one_back_check txn_config_of config_of after_check answered classify classify_as
    wrap64 ◌+ℤ◌
check_all-Sorted_example =
    check_all-Sorted never (services (ok (pos 1))) configs (opened ∷ [])
      (record no_buckets { committed = committed ∷ [] }) 0 (refl, tt) refl

abbrev tx_services : TxServices ℕ
tx_services = record {
  now = λ s. (pos 0, s);
  create = λ t s. (ok (pos 1), suc s);
  update_status = λ biz_id key status sent s. (ok tt, suc s);
  get_config = λ biz_id s. (ok no_config, s);
}

commit_sender_example :
    commit tx_services plain_json counting_store (λ n s. (err (failure 1), suc s)) (pos 7) "k1" 0
    ≡ commit tx_services plain_json counting_store (λ n s. (err (failure 2), s)) (pos 7) "k1" 0
commit_sender_example =
    commit_sender tx_services plain_json counting_store (λ n s. (err (failure 1), suc s))
      (λ n s. (err (failure 2), s)) (pos 7) "k1" 0
