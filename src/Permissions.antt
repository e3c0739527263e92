-- ===== src/Permissions.antt =====
-- Permissions over business units: common/services/business_units.
pub mod Levels
pub mod Abilities
pub mod Resolver
mod Tests
