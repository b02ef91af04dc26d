-- ===== src/ArduPilot.antt =====
-- DC_PAL_ArduPilot: the platform's parts on ArduPilot.
pub mod FileSystem
