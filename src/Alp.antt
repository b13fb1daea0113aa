-- ===== src/Alp.antt =====
-- The application layer protocol: otlib/alp_main.c and its processors in otlib/alp_filedata.c,
-- otlib/alp_sensor.c and otlib/alp_logger.c, with the default features (no NDEF, ALPEXT or VLNEW).
pub mod State
pub mod Perms
pub mod FileData
pub mod Files
pub mod Sensor
pub mod Main
pub mod Parse
pub mod Room
pub mod Bounds
pub mod Turns
pub mod Payload
pub mod ReadTurn
pub mod Later
pub mod Templates
pub mod Identity
