-- ===== src/Dsn.antt =====
-- Data source settings of driver/ma_dsn.h and driver/ma_dsn.c. `Dsn.Number` has the C library's
-- readers of numbers, `Dsn.Keys` the keywords and the structure, `Dsn.Store` the stores into it,
-- `Dsn.ConnString` the reader of a connection string and `Dsn.Print` its printer.
pub mod Number
pub mod Keys
pub mod Store
pub mod Options
pub mod ConnString
pub mod Print
