-- ===== src/Api.antt =====
-- control/api: the routes that write to the database. The answers are the values that the handlers
-- return; a raised HTTPException is `http_error` with its status. Authentication is FastAPI's.
pub mod DeadLetters
pub mod Jobs
