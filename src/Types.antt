-- ===== src/Types.antt =====
-- The type tables of driver/ma_helper.cpp and driver/ma_desc.cpp: `Types.Codes` has the codes,
-- `Types.CType` what is known of a C type, `Types.Column` what is known of a column and
-- `Types.Record` what a descriptor's record holds of it.
pub mod Codes
pub mod CType
pub mod Column
pub mod Record
