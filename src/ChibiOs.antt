-- ===== src/ChibiOs.antt =====
-- DC_PAL_ChibiOS: the clock of the microcontroller.
pub mod Clock
pub mod Usb
pub mod Board
