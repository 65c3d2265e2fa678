-- ===== src/Backend.antt =====
-- src/backend: the use cases behind the HTTP API.
pub mod JobService
pub mod AuthService
pub mod Security
pub mod Api
pub mod Storage
pub mod UploadService
pub mod TimeoutService
mod Tests
mod AuthTests
mod UploadTests
mod ApiTests
