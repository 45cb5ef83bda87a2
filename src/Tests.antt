-- ===== src/Tests.antt =====
-- Runs of the definitions, and the theorems at concrete inputs.
mod Query
mod Dsn
mod Types
mod Convert
mod Bind
mod Error
mod Cursor
mod Descriptor
mod Attribute
mod Positioned
mod Connection
