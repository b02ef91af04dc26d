-- ===== src/Empty/LogFile.antt =====
-- The log file interface (DC_DataIface/DataIface_LogFile.cpp) on the empty platform's files.
use libdronecan.Prelude.{ℕ, suc, ◌≡◌, refl, false, none, some, List}
use libdronecan.DataIface.Frame.{CanFrame}
use libdronecan.DataIface.LogFile.{
  init, send, send_steps, write_full, read_full, find_header, update_rx,
}
use libdronecan.Empty.{read, write, open_file}

-- On the empty platform the interface is not there: `init` fails, `send` fails for every frame, and
-- `update_rx` ends at once without a frame.
pub update_rx-send :
    {F : Type 0} (f : F) (path mode : List ℕ) (fuel : ℕ) (frame local : CanFrame)
    → (init {F = F} (open_file path mode) (open_file path mode) ≡ false)
      × (send write (some f) frame ≡ (false, some f))
      × (update_rx read (suc fuel) local (some f) ≡ (none, some f))
unfolding open_file read write init send send_steps write_full read_full find_header update_rx
update_rx-send f path mode fuel frame local = (refl, refl, refl)
