-- ===== src/Lib.antt =====
-- Notifyr relays notifications (mail, SMS, voice, webhooks) for clients that pay with credits. This
-- library models the parts of the Python server under app/ that decide who may do what, what it
-- costs, and where a task runs.
--
-- A request passes the middleware, which makes a permission of its token (Auth), the permissions of
-- its route (Auth.Route, Auth.Client, Cost.Gate), and the route's guards (Guards). An interceptor then
-- charges its cost (Cost.Intercept), the handler places its task (Offload, Delays, Schedule), and
-- behind the handler the cost is settled; a payment may also run in the background (Cost.Merchant).
-- All these are callbacks that decorators put around the endpoint (Pipeline), and exceptions on their
-- way out are answered by handlers (Handlers). The services underneath are made in the order of
-- their dependencies (Container) and have a life of their own (Service), and some of their work is
-- retried, timed or cut into steps (Runner).
--
-- The files and the code that they are about:
--   Base, Base/*           names of the libraries, tests, lists, dicts and integers
--   TaskKind               TaskType of app/classes/celery.py
--   Failure                the exceptions that a call of the server raises
--   Cost/Bill              Cost of app/definition/_cost.py, BillItem and Bill of
--                          app/classes/cost_definition.py
--   Cost/Wallet            deduct_credits, refund_credits and check_enough_credits of
--                          app/services/cost_service.py
--   Cost/Price             SimpleTaskCost and TaskCost of app/definition/_cost.py
--   Cost/Gate              TaskCostPermission of app/decorators/permissions.py
--   Cost/Intercept         TaskCostInterceptor and DataCostInterceptor of
--                          app/decorators/interceptors.py, and DataCost
--   Cost/Merchant          Merchant of app/manager/merchant_manager.py
--   Auth/Token             the tokens of app/services/security_service.py, and the cipher around them of
--                          app/classes/secrets.py
--   Auth/Permission        roles and permissions of app/classes/auth_permission.py
--   Auth/Route             JWTRouteHTTPPermission of app/decorators/permissions.py
--   Auth/Client            the other permission classes, and JWTAuthMiddleware of
--                          app/server/middleware.py
--   Offload, Delays        TaskManager of app/manager/task_manager.py
--   Service                BaseService, BaseMiniServiceManager and MiniServiceStore of
--                          app/definition/_service.py
--   Handlers               the exception handlers of app/decorators/handlers.py, and UseHandler;
--                          Requests, Records, Stores and Work hold their tables
--   Pipeline               the decorators of app/definition/_ressource.py: the stacking of their
--                          callbacks (Order), UsePermission (Permit), UsePipe and UseInterceptor
--                          (Pipes), LockService (Locks), the limits (Rates), UseRoles (Roles), and
--                          what becomes of a result (Answers)
--   Container              the loading of services and their order in app/container.py, and the walk of
--                          destroyDep (Destroy)
--   Guards                 the guards of app/decorators/guards.py, and UseGuard of
--                          app/definition/_ressource.py
--   Schedule               the limits of app/classes/scheduler.py and app/classes/celery.py
--   Pipes                  some of the pipes of app/decorators/pipes.py
--   Filters                JSONLDFilterGroup (Group) and URLParam (Ranges) of app/classes/url.py
--   Pointer                PointerIterator of app/utils/helper.py, for dicts
--   IntegrityCache         IntegrityCache of app/utils/helper.py, over a dict
--   Runner                 retry_logic of app/callback/event_stream.py, IntervalInterface of
--                          app/interface/timers.py, StepRunner of app/classes/step.py
--   Streams                the handlers of app/callback/event_stream.py and track_stream.py: Links,
--                          Emails, Messages, Calls and Contacts; Consumer has lock_logic of
--                          app/depends/lock.py and a round of RedisService._consume_stream
--   KeepAlive              KeepAliveManager of app/manager/keep_alive_manager.py and the parsers of
--                          app/classes/stream_data_parser.py; Subjects has the locks of
--                          app/services/reactive_service.py
--
-- An operation of a class is a function of the same name that takes the fields it reads in a record
-- and gives back the new record; an exception is a value. Python's int is the integers of Base/Int,
-- and counts and sizes are natural numbers.
--
-- Redis, the database, PyJWT, cryptography, Celery, APScheduler, the random choice of an environment,
-- and what a service's own build does are not modelled: they are parameters, with what the code relies
-- on as fields of a record (Store in Cost/Wallet/Safety) or as a hypothesis (RefusesText in
-- Auth/Token/Issue, KnowsFields in Streams/Laws/Losses).
-- So is what str, float and re of Python do with the values of a filter (Python in Filters). What a
-- permission, a pipe, a hook of an interceptor or a route's function does is an argument of Pipeline.
--
-- In Streams, what the ORM makes of a dict, what DeviceDetector finds, what the tables answer, and
-- whether a transaction is committed are parameters; in KeepAlive, what a subject tells a request and
-- how long it waits.
--
-- The loop of deduct_credits has the retry limit of the source as its fuel, and retry_logic its number
-- of attempts. The `while True` of _offload_task runs on fuel 4, which is enough: a fallback from
-- `route` leads over `worker` and `aps` to the loop's own last round. The loop of __buildContainer
-- has the number of its services and one as its fuel, since each round but the last makes one. So has
-- the walk of destroyDep for its depth, since each call but the last puts a service into the cache.
--
-- Not modelled: what only talks to other systems (the services for databases, brokers, mail, Twilio,
-- agents and ingestion), the endpoints, the tables and schemas, the load balancer and
-- the dashboard. `print` and reports are left out; texts of messages keep no interpolated values.
-- So are the exceptions of a callback that runs inline, but for a TaskRetryError, of add_task and of
-- the calls of Celery in Offload, a TaskCost without a pointer to its recipients, and the pointers of
-- the type object. A float division of the prices is exact up to 2^53.
pub mod Base
pub mod TaskKind
pub mod Failure
pub mod Auth
pub mod Cost
pub mod Offload
pub mod Delays
pub mod Service
pub mod Guards
pub mod Handlers
pub mod Pipeline
pub mod Container
pub mod Schedule
pub mod Runner
pub mod Streams
pub mod KeepAlive
pub mod Pipes
pub mod Filters
pub mod Pointer
pub mod IntegrityCache
