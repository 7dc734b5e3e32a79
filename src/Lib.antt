-- ===== src/Lib.antt =====
-- Verification of the go-notification platform: notifications are accepted over gRPC, stored with
-- the quota of their business, sent at once or by a scheduler through the providers of a channel,
-- and tied to transactions of the business, which a task checks until they are settled.
--
-- Parts, and how they correspond to the code. A function's name is the code's in snake case, and a
-- record or data type is the struct or the constants of its name.
--   Prelude: shared names, integers with Go's wraps, lists, times and the interface of floats.
--   Errs: internal/errs/error.go. An error is the list of the sentinels that errors.Is finds in it.
--   Effect: a call of another component is a function of a state S that returns a result and the
--     state afterwards. S and the services are parameters, so that a theorem holds for all of them.
--   Domain: internal/domain. Strategy is send_notification.go, Notification is notification.go,
--     Provider is provider.go, Template is template.go, Tx is tx_notification.go and config.go;
--     Guards, Windows and Catalog hold the theorems about them.
--   Api: internal/api/grpc/server.go. Convert has the conversions of errors, statuses and
--     responses, with those of internal/service/notification/callback/callback.go; Server has the
--     handlers of one notification, a transaction or a key; Batch has those of several.
--   Sending: internal/service/notification/send_notification.go (Service) and
--     internal/service/sendstrategy (Strategy). The server calls the service, the service a
--     strategy by the record SendStrategy, and the strategies the repository and the sender by the
--     record Backend.
--   Repository: internal/repository/notification.go. Entities has the rows, Notifications the
--     operations over the table and the quota cache, which are the record Store; Dao is
--     internal/repository/dao/notification.go, which fills that record, with its conditions and
--     rows in Dao.Tables. Refunds and Unmarked hold theorems.
--   Transactions: internal/service/notification. Service is tx_notification.go, Check and Loop are
--     check_back_task.go.
--   Delivery: internal/service/sender/sender.go, over the channel, the task pool, the repository
--     and the callback service, which are the record SenderServices. The order in which the tasks
--     of a batch run is a parameter.
--   Callback: internal/service/notification/callback/callback.go, with the log of
--     internal/domain/callback_log.go (Service), and internal/repository/callback_log.go with
--     internal/repository/dao/callback_log.go (Logs). Progress and Endless hold the theorems.
--   Providers: internal/service/provider/loadbalancer (Health is mprovider.go, Balance is
--     provider.go and selector.go), and internal/service/provider/sequential with
--     internal/service/channel (Channel).
--   Config: the configurations of businesses. Repository is internal/repository/config.go, Cache
--     the interface of internal/repository/cache/config.go, Local and Redis its implementations in
--     internal/repository/cache/local/config.go and internal/repository/cache/redis/config.go, Dao
--     and Entities internal/repository/dao/config.go with internal/pkg/sqlx/json.go. The repository
--     reads the local cache, Redis and the table in turn, and the loop of Local follows Redis.
--     Coherence, Batches, Preload, Watch and Saves hold the theorems.
--   Quota: Counters is internal/repository/cache/redis/quota.go, Reset is internal/service/quota
--     with internal/repository/quota.go and internal/repository/dao/quota.go.
--   Templates: Manage and Review are internal/service/template/manage/manage.go, over the records
--     of Backend; Repository and Entities are internal/repository/template.go and Dao is
--     internal/repository/dao/template.go, with its conditions and rows in Dao.Tables. Publishing,
--     Grouping and Refused hold the theorems.
--   Database: Monitor is internal/pkg/database/monitor/monitor.go, Pool is
--     internal/pkg/database/connpool/connpool.go with internal/event/failover/producer.go, Consumer
--     is internal/event/failover/consumer.go. The pool asks the monitor and hands writes to the
--     producer; the consumer executes them later.
--   Scheduling: Locks is internal/pkg/loopjob/resource.go with the client of the distributed locks,
--     Infinite and Sharded are loopjob.go and shardingloopjob.go beside it, and Ready is
--     internal/service/scheduler, whose loops run in those jobs, over the bit ring. Held, Permits
--     and Ending hold the theorems.
--   RingBuffer, BitRing, BatchSize, Retry: internal/pkg/ringbuffer, internal/pkg/bitring,
--     internal/pkg/batchSize and internal/pkg/retry. Queue, History, Bounds, Backoff and Granted
--     hold the theorems.
--   Sharding: internal/pkg/sharding (Sharding), internal/pkg/hash (Hash) and
--     internal/pkg/id_generator (Ids).
--
-- Conventions. An int64 is the integer ℤ of Prelude.Int, with wrap64 and wrap32 where the code's
-- arithmetic can wrap; a time.Time is the integer of its nanoseconds, without the overflow of
-- time.Time itself; a nil pointer is `none`; a panic is `none` or `panicked`. A string type with
-- constants is a data type with one more constructor for any other text. The texts of errors and
-- the logs are left out. An SQL statement or a Redis command is a function of a record of the
-- store, or a value of a table, a condition and columns; Redis keys and texts are lists of bytes. A
-- floating-point number is an element of the interface Float64, the conversion of an overflowing
-- float and the product with 0.1 are parameters. JSON is the parameter Json.
--
-- Fuel. The loop of a channel (Providers.Channel) and the pages of the callbacks (Callback) run on
-- fuel, since neither need end. Preloading the configurations (Config.Repository) and the monthly
-- reset (Quota.Reset) run on fuel too, for one page a step: Config.Preload shows how much is
-- enough. The loops of the jobs and of the sharding scheduler (Scheduling) have no end of their
-- own, and run on fuel or for a number of rounds. Every other loop is over a list or a count. The
-- digits of Sharding.Hash and the bit count of Providers.Health run for as many steps as the number
-- has digits and bits.
--
-- Concurrency. Mutexes and atomic counters are left out: the calls of one object are taken one
-- after the other. The goroutines of a round of checks run each as a whole, in an order that is a
-- parameter. The loops that the sharding job starts are listed and not interleaved.
--
-- Not modelled: the DAOs of transactions and providers, which are left for later; the web handlers,
-- the interceptors and balancers of gRPC, and the SMS clients, the Lua scripts of the quota (empty
-- files) and the decorators for metrics and tracing, which are I/O.
pub mod Prelude
pub mod Errs
pub mod RingBuffer
pub mod BitRing
pub mod BatchSize
pub mod Retry
pub mod Sharding
pub mod Domain
pub mod Effect
pub mod Api
pub mod Sending
pub mod Repository
pub mod Transactions
pub mod Providers
pub mod Callback
pub mod Delivery
pub mod Database
pub mod Config
pub mod Templates
pub mod Quota
pub mod Scheduling
