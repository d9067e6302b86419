-- ===== src/Relay.antt =====
-- The relay service, services/relayer/src/services, with the transfer policy and the payload that is
-- signed, services/relayer/src/payload.
pub mod Types
pub mod Json
pub mod JsonReading
pub mod Policy
pub mod Errors
pub mod Service
pub mod Authorised
pub mod Execution
pub mod Submission
pub mod Health
pub mod Payload
pub mod WellFormed
pub mod Signed
