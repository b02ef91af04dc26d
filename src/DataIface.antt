-- ===== src/DataIface.antt =====
-- DC_DataIface: the data interfaces that carry CAN frames.
pub mod Frame
pub mod Raw
pub mod LogFile
pub mod ShMem
pub mod HwSemaphore
pub mod ArduPilot
pub mod Interrupts
pub mod Base
