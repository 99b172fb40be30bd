-- ===== src/Sections.antt =====
-- backend/src/agenda-sections/agenda-sections.service.ts: the sections of every agenda.
pub mod Requests
pub mod Order
mod Tests
