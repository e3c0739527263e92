-- ===== src/Capitated.antt =====
-- The monthly load of insured persons, common/services/capitated/capitated_batch_processor.py.
pub mod Tables
pub mod Session
pub mod Countries
pub mod Sheets
pub mod Row
pub mod Persons
pub mod Prices
pub mod Contracts
pub mod Counters
pub mod Process
pub mod Excel
pub mod Rollback
pub mod Frame
mod Tests
