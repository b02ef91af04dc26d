-- ===== src/DataIface/ShMem.antt =====
-- DC_DataIface/DataIface_ShMem.h and DataIface_ShMem.cpp: two cores exchange frames through two
-- rings in shared memory. Each half of the memory begins with the ring's `Buffer`, and its bytes
-- follow; both cores lay the rings out themselves. Interrupts and threads are not modelled, and a
-- hardware semaphore makes each of `init`'s blocks, `send` and a `pop` one step.
pub mod Laws
pub mod Drain
pub mod Reach
mod Tests
use libdronecan.Prelude.{
  ℕ, zero, suc, ◌+◌, ◌-◌, ◌/◌, ◌%◌, ◌^◌, Bool, true, false, List, replicate, ◌==◌, ◌||◌, not,
  if◌then◌else◌, bit_and,
}
use libdronecan.Pal.Links.{Run, returns, out_of_fuel}
use libdronecan.DataIface.Frame.{CanFrame}
use libdronecan.DataIface.Raw.{Buffer, reset, push, pop}

pub data Core : Type 0 where
  cm7 : Core
  cm4 : Core

pub tx_hsem_index : Core → ℕ
tx_hsem_index cm7 = 0
tx_hsem_index cm4 = 1

pub rx_hsem_index : Core → ℕ
rx_hsem_index cm7 = 1
rx_hsem_index cm4 = 0

unfoldable pub hsem_core_id : Core → ℕ
hsem_core_id cm7 = 0x3
hsem_core_id cm4 = 0x1

-- `__shared_mem_base__`, the size of the memory and `sizeof(Buffer)`.
pub record Layout : Type 0 where
  pub base : ℕ
  pub shared_mem_size : ℕ
  pub sizeof_buffer : ℕ

-- A ring as it lies in memory: its `buffer` pointer, and its bytes and other members.
pub record Placed : Type 0 where
  pub pointer : ℕ
  pub ring : Buffer

-- The rings of the first and of the second half of the memory.
pub record Shared : Type 0 where
  pub low : Placed
  pub high : Placed

abbrev pub address : ℕ → ℕ
address a = a % 2 ^ 32

pub low_pointer : Layout → ℕ
low_pointer l = address (l.base + l.sizeof_buffer)

pub high_pointer : Layout → ℕ
high_pointer l = address (l.base + l.shared_mem_size / 2 + l.sizeof_buffer)

unfoldable pub ring_size : Layout → ℕ
ring_size l = (2 ^ 32 + l.shared_mem_size / 2 - l.sizeof_buffer) % 2 ^ 32

-- The receiver sets the pointer and the size alone.
pub place_rx : (pointer size : ℕ) → Placed → Placed
place_rx pointer size p = record { pointer = pointer; ring = record p.ring { size = size } }

-- The sender clears the indices and the bytes too.
pub place_tx : (pointer size : ℕ) → Placed → Placed
place_tx pointer size p = record {
  pointer = pointer;
  ring = record (reset p.ring) { size = size; buffer = replicate size 0 };
}

-- `init`, less the interrupts and the thread that it starts.
pub init : Core → Layout → Shared → Shared
init cm7 l m = record {
  low = place_rx (low_pointer l) (ring_size l) m.low;
  high = place_tx (high_pointer l) (ring_size l) m.high;
}
init cm4 l m = record {
  low = place_tx (low_pointer l) (ring_size l) m.low;
  high = place_rx (high_pointer l) (ring_size l) m.high;
}

pub send : Core → Shared → CanFrame → Bool × Shared
send cm7 m frame =
    let (sent, ring) = push m.high.ring frame in
    (sent, record m { high = record m.high { ring = ring } })
send cm4 m frame =
    let (sent, ring) = push m.low.ring frame in
    (sent, record m { low = record m.low { ring = ring } })

-- `rx_buf->pop(frame)` on the core's receive ring.
pub receive : Core → Shared → CanFrame → Bool × CanFrame × Shared
receive cm7 m frame =
    let (got, out, ring) = pop m.low.ring frame in
    (got, out, record m { low = record m.low { ring = ring } })
receive cm4 m frame =
    let (got, out, ring) = pop m.high.ring frame in
    (got, out, record m { high = record m.high { ring = ring } })

-- The inner loop of `update_rx`: frames go to the callbacks until `pop` refuses.
pub drain :
    {E : Type 0} → (rx_cbs : CanFrame → E → E) → ℕ → Core → Shared → CanFrame → E → Run (Shared × E)
drain rx_cbs zero core m frame env = out_of_fuel
drain rx_cbs (suc k) core m frame env =
    let (got, out, m') = receive core m frame in
    elim got [ true ↦ drain rx_cbs k core m' out (rx_cbs out env) | false ↦ returns (m', env) ]
