-- ===== src/Error.antt =====
-- Diagnostics: driver/ma_error.h and driver/ma_error.cpp. `Error.Code` has the codes, `Error.Table`
-- their records, `Error.Diag` the structure MADB_Error and its operations, `Error.Record` what an
-- application reads of it.
pub mod Code
pub mod Name
pub mod Table
pub mod Diag
pub mod Record
pub mod Field
