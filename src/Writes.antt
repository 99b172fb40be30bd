-- ===== src/Writes.antt =====
-- Writes of encrypted scalars: `E2eeScalarService` (backend/src/e2ee/e2ee-scalar.service.ts).
pub mod Service
pub mod Checked
pub mod Counters
pub mod Retried
pub mod Accepted
mod Tests
