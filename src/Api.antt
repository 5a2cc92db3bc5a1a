-- ===== src/Api.antt =====
-- frontend/web-app/src/lib/api.ts: how a reply becomes an error of the frontend (`Codes`), the time
-- limit of a request (`Fetch`) and the requests themselves (`Requests`).
pub mod Messages
pub mod Codes
pub mod Fetch
pub mod Requests
