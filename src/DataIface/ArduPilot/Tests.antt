-- ===== src/DataIface/ArduPilot/Tests.antt =====
-- Runs on a driver that is ready, at the time 50.
use libdronecan.Prelude.{
  ℕ, ◌≡◌, refl, true, false, List, [], ◌∷◌, replicate, arith, ◌==◌, if◌then◌else◌,
}
use libdronecan.Prelude.Int.{pos}
use libdronecan.Prelude.Bits.{test_bit}
use libdronecan.DataIface.Frame.{CanFrame}
use libdronecan.DataIface.ArduPilot.{Msg, Hal, CanIface, TxItem, asks_for, send}
use libdronecan.DataIface.ArduPilot.Laws.{send_mask_kept}

-- What the local variable held: a CAN FD message of 12 bytes, whose DLC is 9.
abbrev twelve : Msg
twelve = record { id = 3; dlc = 9; bytes = replicate 12 7; canfd = true }

abbrev driver : Hal (List ℕ)
driver = record {
  data_length_to_dlc = λ n. n;
  dlc_to_data_length = λ n. if n == 9 then 12 else n;
  flag_eff = 0x80000000;
  present = λ i. true;
  init = λ i b f m env. (true, env);
  select = λ i r w m d env. record { ready = true; read = r; write = w; env = env };
  send = λ i m d env. (pos 1, m.id ∷ env);
  micros64 = λ env. (50, env);
}

abbrev second : CanIface
second = record { instance_no = 1; bitrate = 16960; fdbitrate = 8; mode = 0 }

abbrev blank : CanFrame
blank = record { id = 0; data_len = 0; payload = replicate 64 0; canfd = false; timestamp_usec = 0 }

abbrev local : Msg
local = record { id = 0; dlc = 0; bytes = replicate 8 0; canfd = false }

-- To be sent on the interfaces 0 and 1 by the time 40 or 100.
abbrev item : ℕ → TxItem
item deadline = record {
  frame = record { id = 5; data_len = 2; payload = 1 ∷ 2 ∷ []; canfd = false; timestamp_usec = 0 };
  deadline_usec = deadline;
  iface_mask = 3;
}

send_mask_kept_example :
    ((send driver second (item 100) local []).0 ≡ true)
    × (test_bit (send driver second (item 100) local []).1.iface_mask 1 ≡ test_bit 3 1)
unfolding asks_for
send_mask_kept_example =
    send_mask_kept driver second refl (omega arith) (item 100) local [] refl refl

-- A callback that keeps the identifiers.
abbrev keep : CanFrame → List ℕ → List ℕ
keep frame env = frame.id ∷ env
