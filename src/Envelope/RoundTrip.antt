-- ===== src/Envelope/RoundTrip.antt =====
-- What the frontend encrypts, the frontend decrypts and the backend accepts.
pub mod Padding
pub mod Encrypted
pub mod Decrypted
pub mod Accepted
pub mod Created
pub mod Update
