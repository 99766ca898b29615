-- ===== src/Models/Enums.antt =====
-- The enumerations of infrastructure/persistence/models.py.
pub mod Types
pub mod Equality
