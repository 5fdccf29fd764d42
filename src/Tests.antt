-- ===== src/Tests.antt =====
-- The theorems at concrete inputs.
pub mod Breaker
pub mod Sagas
pub mod Retries
pub mod Tables
pub mod Jobs
pub mod Events
pub mod Letters
pub mod Stored
pub mod Throttle
pub mod Guards
pub mod Processing
pub mod Services
pub mod Fees
pub mod Fleet
pub mod Queries
pub mod Caching
pub mod Contexts
pub mod Fields
pub mod Registration
pub mod Consumption
pub mod Routes
pub mod Encoded
