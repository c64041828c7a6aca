-- ===== src/Lib.antt =====
-- Verification of the hotels aggregator: the booking flow, the payments, the webhooks of the hotels
-- and the read model of the search.
--
-- The program is a FastAPI service with a Postgres database. Travelers hold, confirm, release and
-- cancel bookings through an orchestrator, which calls the hotels' own servers over HTTP and a
-- payment gateway; a worker expires stale holds; hotels send signed webhooks, which a sync engine
-- applies to the read model and mirrors in a search index; Stripe sends webhooks of its own.
--
-- How the code is modelled. A coroutine over one database session is a function of type `Exec`
-- (Exec.antt): it takes a world and returns a value or an exception and the world after. The world
-- holds the session's tables, the committed tables and the state of everything outside. `commit`
-- copies the first to the second, and a session that ends drops what it did not commit
-- (`in_session`; `session` in History.antt is `get_session` of app/db/session.py). An exception is
-- a value of `Exn`, and `catch` is the code's `except`. A table is an association list by its
-- primary key (Table.antt). UUIDs, instants (microseconds) and days are natural numbers; prices and
-- counts are integers, as Python's are unbounded.
--
-- What is outside is a record of functions, `Outside` (Outside.antt): the clock, new UUIDs, HTTP,
-- Redis, Stripe, Fernet, HMAC, json, and the parsing and printing of dates and numbers. Nothing is
-- assumed of them, except where a theorem names a hypothesis. The search index is a record of its
-- own, `SearchIndex`. Sandbox.antt is an instance, on which the tests run.
--
-- The files:
--   Table, Json, Text, Exceptions, Database   the shared data; Table has the laws of get and put
--   Models      app/db/models.py: every table's row as a record, its enumerations as data types
--   Exec        coroutines; Exec/Keeps and Exec/Hoare have the rules the proofs apply
--   Client      app/clients/hotel_erp_client.py: `request` and `raise_for_error` are `_request` and
--               `_raise_for_error`; Client/Endpoints has the endpoints
--   Cache       app/cache.py: the quotes of the holds
--   Payment     app/services/payment.py: the gateways and the service; Payment/Webhook is
--               app/api/routes/payments.py
--   Orchestrator   app/services/orchestrator.py: hold, confirm, release, cancel, with the loop of
--               confirm by recursion on the attempts that are left (CONFIRM_MAX_ATTEMPTS, three)
--   HoldWatch   app/workers/hold_watch.py
--   Webhook     app/webhooks/verify.py, app/schemas/webhooks.py and `receive_webhook_event` of
--               app/main.py
--   Sync        app/services/sync_engine.py and app/search/indexer.py
--   Search      app/api/routes/search.py: the query, the grouping of the hits, the results
--   Security    app/security/auth.py and app/api/deps.py: tokens, passwords, who a request is from
--   Schemas     app/schemas/api.py: the bodies of requests and answers
--   Routes      app/api/routes: Routes/Travelers, Routes/Reviews, Routes/Portal and
--               Routes/Promotions (hotel_portal.py), Routes/Registry (hotels_admin.py),
--               Routes/Bookings; Routes/Errors has the handlers of app/main.py
--   Reconciliation   app/workers/reconciliation.py: the two jobs and the circuit breaker
--   Worker      app/workers/arq_worker.py: the cron expression and the minutes of the poll
--   Ledger      the invariant of the bookings and payments, and what may change in them
--   History     sequences of actions, each in a session of its own
--
-- Bounds and fuel. The loop of confirm makes three attempts. The loop over the pages of a hotel's
-- room types (`all_pages`) has no bound in the code: it recurs on a number of pages, answers `false`
-- when they are used up, and as many turns as the hotel's list has pages are enough. `range_up` has the sixty minutes of an hour. Every other definition recurs on its data.
--
-- A rollback expires the objects of a session: `reconcile_all` and `resync_all` read the next hotel
-- through `read_hotel`, which raises then if SQLAlchemy does (`expired_read_fails`).
--
-- Parameters beside `Outside`: the search index (`SearchIndex`) and its queries (`SearchBackend`),
-- the payment gateway, `today` and the reading of dates, the order of the database on names, the
-- printing of JSON values, `str.split`, and the settings (key of the operator, expiry of tokens,
-- `Breaker`).
--
-- Not modelled: two sessions that interleave, since a session here runs from its beginning to its
-- end; configuration, logging, CORS, migrations, and the creation of the clients of Postgres, Redis
-- and OpenSearch, which only call libraries. The validation of a request's body is pydantic's: the
-- records of Schemas are what it lets through, and for a webhook its result is an argument. The JSON
-- columns of the read model hold lists of texts.
pub mod Prelude
pub mod Table
pub mod Json
pub mod Models
pub mod Exceptions
pub mod Outside
pub mod Database
pub mod Exec
pub mod Text
pub mod Client
pub mod Cache
pub mod Payment
pub mod Orchestrator
pub mod HoldWatch
pub mod Ledger
pub mod History
pub mod Sandbox
pub mod Webhook
pub mod Security
pub mod Reconciliation
pub mod Routes
pub mod Schemas
pub mod Search
pub mod Sync
pub mod Worker
