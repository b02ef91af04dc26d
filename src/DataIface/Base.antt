-- ===== src/DataIface/Base.antt =====
-- DC_DataIface/DataIface_Backend.h: what the base class `DataIface` gives to the interfaces. Its
-- receive callbacks are a list of DC_PAL/Callbacks.h. `flags` and INTERFACE_WRITE, which it names
-- and does not declare, are parameters.
use libdronecan.Prelude.{ℕ, zero, suc, Bool, true, false, ◌≡◌, refl, ◌==◌, bit_and}
use libdronecan.Pal.Links.{Ptr, Links, Run, returns, out_of_fuel}
use libdronecan.Pal.Callbacks.{register_cb, unregister_cb}

-- `register_cb` and `unregister_cb` of an interface whose list is at `rx_cbs`.
unfoldable pub iface_register_cb : ℕ → Links → (rx_cbs cb : Ptr) → Run Links
iface_register_cb fuel n rx_cbs cb = register_cb fuel n rx_cbs cb

pub iface_unregister_cb : ℕ → Links → (rx_cbs cb : Ptr) → Run Links
iface_unregister_cb fuel n rx_cbs cb = unregister_cb fuel n rx_cbs cb

-- `send` of an interface that does not override it: `this->send(frame)` is the same call again.
pub default_send : ℕ → (interface_write flags : ℕ) → Run Bool
default_send zero interface_write flags = out_of_fuel
default_send (suc k) interface_write flags = elim (bit_and flags interface_write == 0) [
  | true ↦ default_send k interface_write flags
  | false ↦ returns true
]

-- Without the flag the call never ends.
pub default_send_spins :
    (k interface_write flags : ℕ)
    → (bit_and flags interface_write == 0) ≡ true
    → default_send k interface_write flags ≡ out_of_fuel
unfolding default_send
default_send_spins zero interface_write flags e = refl
default_send_spins (suc k) interface_write flags e =
    rw (default_send, e) (default_send_spins k interface_write flags e)
