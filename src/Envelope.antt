-- ===== src/Envelope.antt =====
-- Encrypted envelopes: the values that CBOR carries, the backend's validators
-- (backend/src/e2ee/*envelope-validator.ts) and the frontend's codecs (frontend/src/e2ee/*-codec.ts).
pub mod Values
pub mod Readers
pub mod Scalar
pub mod ScalarCodec
pub mod ScalarDecrypt
pub mod Update
pub mod UpdateCodec
pub mod RoundTrip
pub mod Tests
