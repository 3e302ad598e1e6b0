-- ===== src/Db.antt =====
-- The database that apps/api/prisma/schema.prisma declares, as far as the modelled services use it,
-- and what a service method does: it reads and writes the tables and may throw.
pub mod Schema
pub mod Errors
pub mod Action
pub mod Tables
pub mod Quiet
pub mod Rows
