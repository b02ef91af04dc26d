-- ===== src/DataIface/ArduPilot/Laws.antt =====
-- `send` and `update_rx` of DataIface_ArduPilot.cpp: the mask of the interfaces that are still to
-- send a frame, and what is handed to the callbacks.
use native.Mathlib.Nat.{mod-eq_of_lt, mod-lt}
use libdronecan.Prelude.{
  ℕ, ◌-◌, ◌%◌, ◌^◌, ◌<◌, ◌≡◌, refl, ◌∙◌, ap, Bool, true, false, not, ◌&&◌, some, arith, ltb, ◌==◌,
  if◌then◌else◌,
}
use libdronecan.Prelude.Bits.{
  test_bit, test_bit-and, test_bit-not, test_bit-pow, test_bit-zero, pow_lt,
}
use libdronecan.Prelude.Int.{ℤ, pos, ltb_ℤ}
use libdronecan.DataIface.ArduPilot.{
  Msg, Selected, Hal, CanIface, TxItem, tx_message, asks_for, clear_mask, send,
}

-- Clearing bits of a mask.
clear_mask-bits :
    {E : Type 0} (hal : Hal E) (self : CanIface) (txf : TxItem) (m i : ℕ)
    → m < 2 ^ 32
    → i < 32
    → test_bit (clear_mask hal self txf m).iface_mask i
      ≡ (test_bit txf.iface_mask i && not (test_bit m i))
unfolding clear_mask
clear_mask-bits hal self txf m i h lt =
    ground (arith, test_bit-and i txf.iface_mask (2 ^ 32 - 1 - m), test_bit-not 32 i m h lt)

-- `1U<instance` is 0 or 1, and its bit is never that of the interface.
low_bit : (n : ℕ) → test_bit (if ltb 1 n then 1 else 0) n ≡ false
low_bit n = ground (arith, test_bit-zero n, test_bit-pow 0 n)

and_true : (b : Bool) → (b && not false) ≡ b
and_true true = refl
and_true false = refl

module _ {E : Type 0} (hal : Hal E) (self : CanIface) (there : hal.present self.instance_no ≡ true)
    (in_range : self.instance_no < 32) where
  -- The bit of the interface.
  own_bit : (i : ℕ) → test_bit (2 ^ self.instance_no % 2 ^ 32) i ≡ (self.instance_no == i)
  own_bit i =
      let e : 2 ^ self.instance_no % 2 ^ 32 ≡ 2 ^ self.instance_no =
        mod-eq_of_lt (pow_lt self.instance_no in_range) in
      ap (λ m. test_bit m i) e ∙ test_bit-pow self.instance_no i

  module _ (txf : TxItem) (local : Msg) (env : E) where
    abbrev pub selected : Selected E
    selected = hal.select self.instance_no false true (some (tx_message hal self txf local)) 0 env

    abbrev pub now : ℕ
    now = (hal.micros64 selected.env).0

    abbrev pub due : Bool
    due = ltb now txf.deadline_usec && (asks_for hal self txf && selected.write)

    abbrev pub sent : ℤ × E
    sent =
        hal.send self.instance_no (tx_message hal self txf local) txf.deadline_usec
          (hal.micros64 selected.env).1

    -- Where the frame is not sent for its deadline, its mask or a full queue, `send` returns
    -- false and clears the bit of the interface alone.
    pub send-gives_up :
        (i : ℕ)
        → i < 32
        → due ≡ false
        → ((send hal self txf local env).0 ≡ false)
          × (test_bit (send hal self txf local env).1.iface_mask i
              ≡ (test_bit txf.iface_mask i && not (self.instance_no == i)))
    unfolding send
    send-gives_up i lt late =
        rw (there, late)
          (
            refl,
            clear_mask-bits hal self txf (2 ^ self.instance_no % 2 ^ 32) i
                  (mod-lt (2 ^ self.instance_no) {m = 2 ^ 32} (omega arith)) lt
                ∙ ap (λ b. test_bit txf.iface_mask i && not b) (own_bit i),
          )

    -- After a `send` that goes through on one of the first 32 interfaces, which is there, the bit
    -- of the interface in `iface_mask` is as it was.
    pub send_mask_kept :
        due ≡ true
        → ltb_ℤ (pos 0) sent.0 ≡ true
        → ((send hal self txf local env).0 ≡ true)
          × (test_bit (send hal self txf local env).1.iface_mask self.instance_no
              ≡ test_bit txf.iface_mask self.instance_no)
    unfolding send
    send_mask_kept ready ok =
        rw (there, ready, ok)
          (
            refl,
            (let low : ℕ = if ltb 1 self.instance_no then 1 else 0 in
                clear_mask-bits hal self txf low self.instance_no (ground arith) in_range
                ∙ ap (λ b. test_bit txf.iface_mask self.instance_no && not b)
                    (low_bit self.instance_no)
                ∙ and_true (test_bit txf.iface_mask self.instance_no)),
          )

module _ {E : Type 0} (hal : Hal E) (self : CanIface) (local_msg : Msg) (env : E) where
  -- What `select` finds for `update_rx`.
  abbrev pub heard : Selected E
  heard = hal.select self.instance_no true false (some local_msg) 0 env
