-- ===== src/DataIface/ArduPilot.antt =====
-- DC_DataIface/DataIface_ArduPilot.h and DataIface_ArduPilot.cpp: a CAN driver of ArduPilot as a
-- data interface. `AP_HAL`, the two length tables of libcanard and the callbacks are parameters.
-- `txf`, which `send` uses in place of its argument and which is declared nowhere, is taken for
-- the item that is to be sent, with a 32-bit `iface_mask`.
pub mod Laws
mod Tests
use libdronecan.Prelude.{
  ℕ, zero, suc, ◌+◌, ◌-◌, ◌*◌, ◌%◌, ◌^◌, Bool, true, false, not, ◌&&◌, Option, none, some, List,
  ltb, ◌==◌, if◌then◌else◌, get_or, set, bit_and, bit_or,
}
use libdronecan.Prelude.Int.{ℤ, pos, ltb_ℤ}
use libdronecan.DataIface.Frame.{CanFrame}

-- `AP_HAL::CANFrame`: the members that the code uses.
pub record Msg : Type 0 where
  pub id : ℕ
  pub dlc : ℕ
  pub bytes : List ℕ
  pub canfd : Bool

-- What `select` reports: its result, `read` and `write`. The message that it is given a pointer to
-- is one that is to be sent, which it does not change.
pub record Selected (E : Type 0) : Type 0 where
  pub ready : Bool
  pub read : Bool
  pub write : Bool
  pub env : E

pub record Hal (E : Type 0) : Type 0 where
  pub data_length_to_dlc : ℕ → ℕ
  pub dlc_to_data_length : ℕ → ℕ
  pub flag_eff : ℕ
  -- `hal.can[instance] != nullptr`
  pub present : ℕ → Bool
  pub init : ℕ → (bitrate fdbitrate mode : ℕ) → E → Bool × E
  pub select : ℕ → (read write : Bool) → Option Msg → (deadline : ℕ) → E → Selected E
  pub send : ℕ → Msg → (deadline : ℕ) → E → ℤ × E
  pub micros64 : E → ℕ × E

-- `ArduPilotIface`
pub record CanIface : Type 0 where
  pub instance_no : ℕ
  pub bitrate : ℕ
  pub fdbitrate : ℕ
  pub mode : ℕ

-- `*txf`
pub record TxItem : Type 0 where
  pub frame : CanFrame
  pub deadline_usec : ℕ
  pub iface_mask : ℕ

-- The constructor keeps the bit rates in 16 bits, and never sets `instance`.
pub construct_iface : (stale : ℕ) → (bitrate fdbitrate mode : ℕ) → CanIface
construct_iface stale bitrate fdbitrate mode = record {
  instance_no = stale;
  bitrate = bitrate % 2 ^ 16;
  fdbitrate = fdbitrate % 2 ^ 16;
  mode = mode;
}

-- `memcpy(to, from, n)` with `n` bytes left from index `i` on.
pub copy_bytes : ℕ → ℕ → (from to : List ℕ) → List ℕ
copy_bytes zero i from to = to
copy_bytes (suc n) i from to = copy_bytes n (i + 1) from (set to i (get_or from i 0))

module _ {E : Type 0} (hal : Hal E) (self : CanIface) where
  pub init : E → Bool × E
  init env =
      if hal.present self.instance_no
      then hal.init self.instance_no self.bitrate (self.fdbitrate * 1000000 % 2 ^ 32) self.mode env
      else (false, env)

  -- The message of `send`, whose other bytes are what the local variable held.
  pub tx_message : TxItem → Msg → Msg
  tx_message txf local = record {
    id = bit_or txf.frame.id hal.flag_eff;
    dlc = hal.data_length_to_dlc txf.frame.data_len;
    bytes = copy_bytes txf.frame.data_len 0 txf.frame.payload local.bytes;
    canfd = txf.frame.canfd;
  }

  -- `txf->iface_mask & (1U<<instance)`
  unfoldable pub asks_for : TxItem → Bool
  asks_for txf = not (bit_and txf.iface_mask (2 ^ self.instance_no % 2 ^ 32) == 0)

  -- `txf->iface_mask &= ~m`
  pub clear_mask : TxItem → ℕ → TxItem
  clear_mask txf m = record txf { iface_mask = bit_and txf.iface_mask (2 ^ 32 - 1 - m) }

  pub send : TxItem → (local : Msg) → E → Bool × TxItem × E
  send txf local env =
      if hal.present self.instance_no
      then (let msg = tx_message txf local in
          let sel = hal.select self.instance_no false true (some msg) 0 env in
          let (now, env1) = hal.micros64 sel.env in
          if ltb now txf.deadline_usec && (asks_for txf && sel.write)
          then (let (sent, env2) = hal.send self.instance_no msg txf.deadline_usec env1 in
              if ltb_ℤ (pos 0) sent
              then (true, clear_mask txf (if ltb 1 self.instance_no then 1 else 0), env2)
              else (false, txf, env2))
          else (false, clear_mask txf (2 ^ self.instance_no % 2 ^ 32), env1))
      else (false, txf, env)

  -- The frame of `update_rx`, whose other bytes are what the local variable held.
  pub rx_frame : Msg → CanFrame → ℕ → CanFrame
  rx_frame msg local now = record {
    id = msg.id;
    data_len = hal.dlc_to_data_length msg.dlc;
    payload = copy_bytes msg.dlc 0 msg.bytes local.payload;
    canfd = msg.canfd;
    timestamp_usec = now;
  }

  -- `local_msg` and `local_frame` are what the local variables, which have no initial value, hold.
  -- No message is received into the first one.
  pub update_rx : (CanFrame → E → E) → (local_msg : Msg) → (local_frame : CanFrame) → E → E
  update_rx rx_cbs local_msg local_frame env =
      if hal.present self.instance_no
      then (let sel = hal.select self.instance_no true false (some local_msg) 0 env in
          let (now, env1) = hal.micros64 sel.env in
          if sel.read then rx_cbs (rx_frame local_msg local_frame now) env1 else sel.env)
      else env

  -- `none`: the function ends without a result.
  pub wait_rx : (wait_us : ℕ) → E → Option Bool × E
  wait_rx wait_us env =
      if hal.present self.instance_no
      then (let (now, env1) = hal.micros64 env in
          let sel = hal.select self.instance_no true false none ((now + wait_us) % 2 ^ 64) env1 in
          (some sel.ready, sel.env))
      else (none, env)
