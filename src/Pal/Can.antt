-- ===== src/Pal/Can.antt =====
-- DC_PAL/CAN.h: a CAN port keeps its receive callbacks by a pointer to the first of them, on
-- whose own list the others hang.
pub mod Laws
use libdronecan.Prelude.{ℕ, ◌==◌, if◌then◌else◌}
use libdronecan.Pal.Links.{Ptr, null, Links, Run, returns, null_deref, out_of_fuel, aborted}
use libdronecan.Pal.Callbacks.{register_cb, unregister_cb, get_next}

pub record CanPort : Type 0 where
  pub rx_cbs : Ptr
  pub next : Links

abbrev pub with_first : Ptr → Run Links → Run CanPort
with_first p (returns n) = returns (record { rx_cbs = p; next = n })
with_first p null_deref = null_deref
with_first p out_of_fuel = out_of_fuel
with_first p aborted = aborted

pub can_register_cb : ℕ → CanPort → Ptr → Run CanPort
can_register_cb fuel c cb =
    let first = if c.rx_cbs == null then cb else c.rx_cbs in
    with_first first (register_cb fuel c.next first cb)

pub can_unregister_cb : ℕ → CanPort → Ptr → Run CanPort
can_unregister_cb fuel c cb =
    if c.rx_cbs == null
    then returns c
    else if c.rx_cbs == cb
    then returns (record c { rx_cbs = get_next c.next c.rx_cbs })
    else with_first c.rx_cbs (unregister_cb fuel c.next c.rx_cbs cb)
