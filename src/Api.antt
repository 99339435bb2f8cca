-- ===== src/Api.antt =====
-- The routes: backend/app/api. A route is its handler; `in_transaction` is the request around it.
-- A request's body has passed pydantic's validation, which belongs to the library.
pub mod Deps
pub mod Accounts
pub mod MfaRoutes
pub mod Cases
pub mod Uploads
pub mod Events
pub mod Isolation
pub mod Chronicle
pub mod Deletion
pub mod Passkeys
