-- ===== src/Access.antt =====
-- Who may do what: backend/src/auth/permissions.ts, backend/src/e2ee/e2ee-role-policy.ts and the
-- guard of every request, backend/src/auth/development-identity.guard.ts.
pub mod Policy
pub mod Guard
pub mod Admitted
pub mod Admission
mod Tests
