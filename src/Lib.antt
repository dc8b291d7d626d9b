-- ===== src/Lib.antt =====
-- The sending of campaign messages in multi-messaging-platform: from staged rows through the queues
-- in Redis and the workers of the accounts to the recorded results.
--
-- The program. A campaign is prepared as rows of staged_queue_items, for its contacts that have
-- agreed and within its limits (phase4_prepare). Starting it (campaign_control)
-- sets it RUNNING, takes away its pause key and calls the bridge, which claims READY rows, checks
-- consent, gives each row an account in turn and pushes its payload to the account's queue. A worker
-- reads the queues of its accounts in turn, looks at the kill switch and the pause keys, validates
-- the payload, sends within the account's limits and under a lock that the replicas share, and
-- records the result. Beside that path messages go through message_dispatch in dry run or shadow
-- mode, and three programs watch over the sessions of the accounts. The Node worker reports through
-- two lists in Redis, which consumers write to the database; the dashboard sets the switches that
-- the workers look at.
--
-- Paths are below multi-messaging-platform/.
--   Prelude, Prelude/*   numbers, lists, Python's texts, sorting; no code of its own
--   Redis                workers/redis_keys.py, and the interface of the Redis commands: Redis is not
--                        part of the repository, so its store is abstract with the documented laws
--                        of each command; Redis/Memory is a store that has them
--   Platform             the enumerations of core_engine/models.py
--   Payloads             workers/payloads.py, errors.py and the settings of config.py
--   Validation           workers/payload_adapter.py, validate_worker_payload of worker_runtime.py and
--                        build_retry_queue_payload of retry.py
--   AccountPool          workers/account_pool.py: account lists, shards of replicas, active accounts
--   RateLimit            workers/rate_limit.py: pauses, caps of the hour and of the day, warming
--   Lock                 workers/distributed_lock.py; Lock/Replicas interleaves the replicas' calls
--                        as a step relation, Lock/Owner compares it with an abstract owner
--   Delivery             workers/delivery.py: dry run, shadow mode, the gates, the connector
--   Worker               workers/multi_account_worker.py and retry.py: run_once; in Draining the calls of
--                        run_once that run_forever makes, and the work that is left before each
--   PoolWorker           workers/whatsapp_pool_worker.py: send_message, the refresh; in Assembly the
--                        worker with its validation, sends and records put together
--   Results              workers/db.py: update_message_attempt_result and its two tables
--   Sessions             workers/whatsapp_auto_reconnect.py, whatsapp_health_monitor.py and
--                        core_engine/api/evolution_webhook.py, as events at one session
--   Consent              core_engine/services/consent_service.py
--   Dispatch             core_engine/services/message_dispatch.py, queue_manager.py, consent_gate.py,
--                        message_log.py and schemas/message.py
--   Baileys              core_engine/services/baileys_queue.py, for staged payloads
--   QueueBridge          core_engine/services/queue_bridge.py
--   CampaignControl      core_engine/services/campaign_control.py
--   ResultsConsumer      core_engine/services/baileys_results_consumer.py, baileys_session_service.py
--   Controls             core_engine/services/control_service.py, whatsapp_send_guard.py,
--                        whatsapp_warmup.py and safety_guard.py
--   Phase4               core_engine/services/phase4_utils.py
--   Staging              core_engine/services/phase4_prepare.py: the texts and limits; in Preparing
--                        the loop and the call
--   Rendering            core_engine/services/message_render.py; in Saving the rows and payloads of
--                        message_queue_payload.py
--   OperationalSend      core_engine/services/operational_send.py; in Gating the call as a whole
--   SingleWorker         workers/base_worker.py
--   Tests                the theorems at concrete inputs
--
-- How state and calls are modelled. Redis, the tables that a function reads and the handlers' logs
-- are passed in and out; an exception is a value of Result, or none where only one can be raised.
-- Ids are natural numbers. Texts are String, or lists of code points where the code strips, lowers or
-- splits them; white space, digits and case folding are those of ASCII, where Python's strip, isdigit,
-- \D and lower read all of Unicode. JSON is the decoded value. The clock, random numbers, connectors,
-- the loaded account and whether Redis answers are arguments.
--
-- Bounds and fuel. The shift register of crc32 runs 8 times for each byte, as in zlib. The decimal
-- text of n has the fuel n + 1, and each digit takes n to n / 10, so it is never used up. The scan of
-- read_next_payload makes one round for each account. The loop of run_forever, which has no end of its
-- own, is run for a number of calls. All other recursion is on lists.
--
-- Not modelled: texts of errors and logging, metrics, the timestamps of rows, failures of the
-- database in the middle of a function other than a key that is taken, also where a loop catches them
-- and goes on, as consume_whatsapp_session_status_batch does at one event, failures of the bridge
-- after the commit of its claim, the in-process browser lock of the pool's worker, heartbeats and
-- sleeping, connectors, generation by a language model and prices, the lists and summaries of the
-- dashboard, the rest of the HTTP API, the frontend, the Node service, migrations and scripts.
pub mod Prelude
pub mod Redis
pub mod Platform
pub mod Payloads
pub mod Validation
pub mod AccountPool
pub mod RateLimit
pub mod Lock
pub mod Delivery
pub mod Worker
pub mod PoolWorker
pub mod Results
pub mod Sessions
pub mod Consent
pub mod Dispatch
pub mod Baileys
pub mod QueueBridge
pub mod CampaignControl
pub mod ResultsConsumer
pub mod Controls
pub mod Phase4
pub mod Staging
pub mod Rendering
pub mod OperationalSend
pub mod SingleWorker
pub mod Tests
