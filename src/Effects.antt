-- ===== src/Effects.antt =====
-- How a handler runs: exceptions as values, the session as explicit state, the request's
-- transaction (backend/app/db/session.py), and the libraries that the code calls.
pub mod Exceptions
pub mod Action
pub mod Library
