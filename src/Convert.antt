-- ===== src/Convert.antt =====
-- Date and time values between the application and the server: driver/ma_typeconv.cpp and a part of
-- driver/ma_helper.cpp. `Convert.Times` has the structures and the copies between them,
-- `Convert.Copies` how the copies undo each other, `Convert.ToSql` the way to the server with
-- `Convert.Acquire` on its buffer, `Convert.FromSql` the way back, `Convert.Roundtrip` both.
pub mod Times
pub mod ToSql
pub mod FromSql
pub mod Roundtrip
pub mod Copies
pub mod Acquire
