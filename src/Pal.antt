-- ===== src/Pal.antt =====
-- DC_PAL: the platform abstraction: intrusive lists, callbacks, CAN ports, workers.
pub mod Links
pub mod ObjList
pub mod Callbacks
pub mod Can
pub mod Worker
mod Tests
pub mod FileSystem
pub mod EventMask
