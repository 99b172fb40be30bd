-- ===== src/Ceremony.antt =====
-- Ceremonies of the key operators (backend/src/e2ee/e2ee.service.ts): the keys of the organization,
-- and how two operators replace them.
pub mod State
pub mod Tables
pub mod KeyEnvelope
pub mod Candidate
pub mod Start
pub mod Steps
pub mod Activate
pub mod Clients
pub mod Requests
pub mod Machine
pub mod Rows
pub mod Invariant
pub mod Generations
pub mod Inversions
pub mod Refinement
pub mod Eligible
pub mod Activating
pub mod Activated
pub mod Starting
pub mod Guarantees
pub mod Prefixes
mod Tests
