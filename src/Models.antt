-- ===== src/Models.antt =====
-- infrastructure/persistence/models.py: the enumerations and the rows of the tables.
pub mod Enums
pub mod Rows
