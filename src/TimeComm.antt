-- ===== src/TimeComm.antt =====
-- Dates as texts, `yyyymmdd` or `yyyymmddhh24miss`, of src/timecomm.c.
pub mod Months
pub mod Intervals
pub mod Lunar
pub mod Checks
pub mod Stamps
