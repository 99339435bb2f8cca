-- ===== src/Lib.antt =====
-- CounselReady: a verification of the backend (backend/app).
--
-- The program is a FastAPI service over one PostgreSQL database and one object store. Every request
-- runs in one transaction: `get_session` of backend/app/db/session.py commits it if the handler
-- returns and rolls it back if the handler raises. A handler of backend/app/api asks
-- `authenticated` who calls, calls the services of backend/app/auth, and maps their exceptions to
-- responses.
--
-- Common holds what all parts share: list and number helpers, Python's `==` and `str` methods, a
-- stable sort for ORDER BY, and tables as lists of rows in the order of insertion with the queries and
-- updates on them.
-- Models holds the rows of backend/app/models and backend/app/jobs/models.py and the database, a
-- record of tables. A uuid is a number that is only compared, and a time is in whole seconds.
-- Models/Cascade holds the foreign keys and what the deletion of an account does along them; its
-- children are about the keys after a deletion and after an insertion, what is left of the account,
-- and what is left of the others.
-- Effects holds calls with state and exceptions: an action takes the database and returns a result
-- or an exception together with the database as the call has left it. A commit and a rollback are
-- `in_transaction`. A unique index is the test of `insert_unique`. The third-party libraries
-- (PyJWT, argon2, hashlib, pyotp, Fernet, py_webauthn, uuid, Unicode's tables) are fields of the
-- record `Library`, an argument of the definitions that use them; what a theorem needs of them is a
-- hypothesis of it. The clock and every random draw are arguments of a call.
-- Auth models backend/app/auth: Passwords is passwords.py, Tokens is tokens.py, Totp is mfa.py, Mfa is
-- mfa_service.py, Sessions is service.py, Passkeys is passkeys.py and Deletion is deletion.py. The
-- child modules prove their properties.
-- Api models backend/app/api: Deps is deps.py, Accounts and Deletion are auth.py, MfaRoutes is mfa.py,
-- Passkeys is passkeys.py, Cases and Uploads are cases.py, and Events is events.py. Accounts/Access
-- says who is let in and how access ends, Accounts/Transactions what a rolled back request leaves,
-- Cases/Ownership and Isolation whose case material a route tells of, and Chronicle what every
-- sequence of requests on case material does to the timelines, to the audit trail and to the foreign
-- keys. A route that touches the object store takes it beside the database; a rollback leaves the
-- store as it is.
-- Jobs models backend/app/jobs/queue.py: Backoff, Claims, Rows, Lifecycle and GivingUp prove its
-- properties, Lifecycle over every sequence of calls, with any jobs marked. Rows locked by
-- another transaction are a list of ids that a claim passes over.
-- Ingest models backend/app/ingest: Limits is limits.py, over the list of chunks that have not
-- been read; Pdf is pdf.py, where pypdf is a function from bytes to a record of a reader's answers, each a
-- value, an exception that the program catches, or one that it does not; and Ocr is ocr.py, where the
-- object store's answers and the engine are functions. Service is service.py
-- with the keys of backend/app/storage/base.py, over a store that is a function from keys to bytes.
-- Storage models backend/app/storage/local.py, a store over a file system; Storage/Containment follows
-- the files that its calls reach.
-- Startup models the guards of backend/app/main.py, the settings of backend/app/core/config.py, and the
-- request log of backend/app/core/logging.py. Startup/Process is the process that serves: its key, its
-- engine (backend/app/db/session.py), the probes of backend/app/api/health.py and the dependencies that
-- read the settings; Startup/Lifetime follows it from its start on.
-- Migrations models backend/alembic/versions: Schema and Operations are the vocabulary of its scripts,
-- Apply, Recast and Run what each statement does to a database on PostgreSQL, and Revisions has a
-- module for each script, whose `upgrade` and `downgrade` are the lists of its statements. A statement
-- means what PostgreSQL documents of it, and `none` stands for its refusal. Chain puts
-- the revisions in their order. WellFormed is what a schema keeps true, and Undo, AddedColumn,
-- Preserved, Altered and Reversal are about the statements that add to it; Rebuild, Values, Statuses,
-- Extension and LostActions are about the two revisions that change an enum type, and RoundTrip is about
-- all of them.
-- Metadata is what the model classes and the naming convention of backend/app/db/base.py declare, Drift
-- compares two schemas, and Declared is about the migrations beside the models.
-- Tests holds a small library that computes, and runs and theorems at concrete data.
--
-- Every loop is recursion on a list or a number of the source, but for the chunks of an upload, which
-- are cut in as many rounds as the file has bytes: enough, as a read returns a byte at least.
--
-- Not modelled: the wiring of the application and the JSON formatter of the log, which are I/O;
-- Alembic's runner (backend/alembic/env.py); and the web client. The time that a call takes is not
-- modelled, so nothing is said of timing attacks.
pub mod Common
pub mod Migrations
pub mod Models
pub mod Effects
pub mod Auth
pub mod Api
pub mod Ingest
pub mod Jobs
pub mod Storage
pub mod Startup
pub mod Tests
