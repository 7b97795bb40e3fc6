-- ===== src/Lib.antt =====
-- GoodsHunter watches search results on a market site: a scheduler hands the users' tasks to a
-- queue in Redis, crawlers take them from there, fetch the pages and report the items, and the
-- scheduler stores the items and sends mails about new ones and about price drops.
--
-- Base: numbers, lists, integers, texts as lists of code points, decimal numerals.
-- Redis: the commands and scripts of the server as a record of operations and documented laws,
--   and the connection, which answers, refuses, or carries a command out and loses the reply.
--   That go-redis sends a command again by itself is not modelled.
-- RedisQueue: internal/pkg/redisqueue/client.go. Types has the messages of proto/crawler.proto,
--   the errors, and the JSON codec as a parameter; Call the connection monad; Client PushTask to
--   RemoveFromPendingSet, Janitor RescueStuckTasks and DeduplicateQueue, one function for each
--   method, the Lua scripts among them. View is what the five keys hold. Reliable, Calls,
--   Outcomes, Late and Rescue are proofs; Stand is a server and a codec for the tests.
-- WorkerQueue: internal/pkg/queue/queue.go. Queue has the methods' effects on the channel, the
--   flag and the counters; Steps the interleavings of callers, workers and the shutdown.
-- RateLimit: internal/pkg/ratelimit/ratelimit.go. Tokens are in thousandths, so the refill is
--   exact on whole milliseconds; rounding of Lua's numbers is left out.
-- Crawler: of internal/crawler, adaptive.go (Throttler), detect.go (Failure: errors, BlockType:
--   pages; Unknown has its proofs), parse.go (Price, Address) and url_builder.go (Address). Proxy
--   is proxy.go over Redis, the clock and the browser's start as a parameter; Crawl is doCrawl of
--   crawl.go over crawlOnce as an argument, and Worker what FetchItems counts and StartWorker
--   does at a task's end, on the model of RedisQueue. Visit is crawlOnce and Cookies the
--   CookieManager of adaptive.go, over what the calls answer. Drain is the draining and the
--   exchange of the browser in browser.go, as steps of the goroutines. Attempts, Recovery,
--   Finished, Drained, Emptied, Exchange, Stale, Visited, Tidy and Aged are proofs.
-- Api: internal/api. Users is the table of internal/model/user.go, Token issueToken of
--   auth/auth.go and middleware/jwt.go, Auth the other handlers of auth/auth.go. Tasks has the
--   tables and keys that the task handlers of server.go change, internal/pkg/dedup/dedup.go, and
--   the address of a search; Changes handleCreateTask, handleUpdateTask, handleUpdateTaskStatus
--   and handleToggleNotify; Removal handleDeleteTask; Account handleDeleteAccount over the
--   committed tables and the copy of an open transaction. A request has been bound to its struct,
--   or not (none), and each statement, command and mail of it succeeds or changes nothing, as an
--   argument says. Keeps, Verified, Access, NewRow, Enrolled, Own, Handlers, Owners, Twice and
--   Deletion are proofs.
-- Scheduler: internal/api/scheduler/scheduler.go. Tasks has ids, cached prices and the status of
--   a result; Dispatch enqueueRunningTasks; Cleanup cleanupOldItems, on the list of creation
--   times and as the queries that it makes; Listener the loop, semaphore and handlers of
--   StartResultListener; Services the queries that the rest makes, as a parameter on an abstract
--   world, and the mails sent so far; Items processItems, upsertItem and linkTaskItem; Results
--   handleResult, setTaskCrawlStatus and handleTask. Notices, Outcomes and Handover are proofs.
--   handleTask goes through the model of RedisQueue.
--
-- Fuel: enqueueRunningTasks reads pages until one is empty; each page that is not has at least
-- one id above the last, so one round more than there are tasks is enough. Decimal numerals take
-- a round for each unit of the number at most. doCrawl calls itself once at most, so two rounds
-- are enough.
--
-- Not modelled: the rest of the browser's control, the lists and the timeline, configuration,
-- metrics, logging and the mail program, most of them input and output or third-party calls; of
-- the scheduler its tickers and monitors, runRescue, and the unused guest mode. Requests of the
-- handlers come one after the other; that two of them overlap between a query and a statement is
-- not modelled.
pub mod Base
pub mod Redis
pub mod RedisQueue
pub mod WorkerQueue
pub mod RateLimit
pub mod Crawler
pub mod Scheduler
pub mod Api
