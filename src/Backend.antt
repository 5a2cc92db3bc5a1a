-- ===== src/Backend.antt =====
-- backend/internal/secret: the part of the Go server that decides what becomes of one letter.
pub mod Letter
pub mod Service
pub mod Validation
pub mod RevealSession
pub mod Handlers
pub mod Secrets
pub mod Replies
pub mod Router
