-- ===== src/Pal/Can/Laws.antt =====
-- What the callback list of a CAN port (DC_PAL/CAN.h) holds after its calls.
use libdronecan.Prelude.{
  ℕ, zero, suc, ◌+◌, ◌<◌, ◌≡◌, ◌≢◌, refl, true, false, List, [], ◌∷◌, ◌++◌, length, arith, ◌==◌,
  ==_ne, ℕ_discrete,
}
use libdronecan.Pal.Links.{Ptr, null, Links, set_next, returns, has, Distinct, Chain, erase}
use libdronecan.Pal.Callbacks.{register_loop, register_cb, get_next}
use libdronecan.Pal.Callbacks.Laws.{Registered, register_cb-Registered, unregister_cb-Registered}
use libdronecan.Pal.Can.{CanPort, can_register_cb, can_unregister_cb}

-- The port's callbacks are the distinct `xs`, in order.
pub record IsPort (c : CanPort) (xs : List Ptr) : Type 0 where
  pub chain : Chain c.next c.rx_cbs xs
  pub distinct : Distinct xs

port-Registered :
    {c : CanPort} {x : Ptr} {xs : List Ptr} → IsPort c (x ∷ xs) → Registered c.next x xs
port-Registered is = record { chain = is.chain.2; distinct = is.distinct; this_ne = is.chain.1 }

-- The walk past callbacks among which `cb` is not ends by clearing the link of `cb`.
register_loop_head :
    (k : ℕ) (n : Links) (p cb : Ptr) (xs : List Ptr)
    → Chain n (n p) xs
    → has cb xs ≡ false
    → length xs < k
    → (n' : Links) × (register_loop k n p cb ≡ returns n') × (n' cb ≡ null)
unfolding register_loop
register_loop_head zero n p cb xs c out fuel = absurd (omega arith)
register_loop_head (suc k) n p cb [] c out fuel =
    (set_next (set_next n p cb) cb null, ground arith, ground arith)
register_loop_head (suc k) n p cb (x ∷ xs) c out fuel =
    let (n', result, cleared) = register_loop_head k n x cb xs c.2 (ground arith) (omega arith) in
    (n', ground (arith, result), cleared)

-- Registering a callback that is not null, that the port does not have and whose link is clear
-- puts it behind the port's others, the first one too. The loop is given more rounds than there
-- are callbacks.
pub can_register_cb-snoc :
    (fuel : ℕ) (c : CanPort) (cb : Ptr) (xs : List Ptr)
    → IsPort c xs
    → cb ≢ null
    → has cb xs ≡ false
    → c.next cb ≡ null
    → length xs < fuel
    → (c' : CanPort) × (can_register_cb fuel c cb ≡ returns c') × IsPort c' (xs ++ (cb ∷ []))
unfolding can_register_cb
can_register_cb-snoc zero c cb xs is on out e enough = absurd (omega arith)
can_register_cb-snoc (suc k) c cb [] is on out e enough = (
  record { rx_cbs = cb; next = set_next (set_next c.next cb cb) cb null },
  unfold register_cb register_loop in ground (arith, is.chain),
  record { chain = (refl, on, ground arith); distinct = (refl, tt) },
)
can_register_cb-snoc (suc k) c cb (x ∷ xs) is on out e enough =
    let (n', result, r) =
      register_cb-Registered (suc k) c.next x cb xs (port-Registered is) on (ground arith)
        (omega arith) in
    let r' : Registered n' x (xs ++ (cb ∷ [])) =
      rw (let q : has cb xs ≡ false = ground arith in q) at r in
    (
      record { rx_cbs = x; next = n' },
      ground (arith, is.chain, result),
      record { chain = (refl, r'.this_ne, r'.chain); distinct = r'.distinct },
    )

-- Unregistering a callback other than null takes it out of the port's list, the first one too,
-- and leaves the list as it is if it is not there. The loop is given more rounds than there are
-- callbacks.
pub can_unregister_cb-erase :
    (fuel : ℕ) (c : CanPort) (cb : Ptr) (xs : List Ptr)
    → IsPort c xs
    → cb ≢ null
    → length xs < fuel
    → (c' : CanPort) × (can_unregister_cb fuel c cb ≡ returns c') × IsPort c' (erase cb xs)
unfolding can_unregister_cb get_next
can_unregister_cb-erase fuel c cb [] is on enough = (c, ground (arith, is.chain), is)
can_unregister_cb-erase fuel c cb (x ∷ xs) is on enough = elim (ℕ_discrete cb x) [
  | yes e ↦ (
    record c { rx_cbs = c.next c.rx_cbs },
    ground (arith, is.chain),
    rw (let hit : (cb == x) ≡ true = ground arith in hit)
        (record { chain = rw (is.chain.0) is.chain.2; distinct = is.distinct.1 }),
  )
  | no ne ↦
      let (n', result, r) =
        unregister_cb-Registered fuel c.next x cb xs (port-Registered is) on (omega arith) in
      (
        record { rx_cbs = x; next = n' },
        ground (arith, is.chain, result),
        rw (==_ne cb x ne) (record { chain = (refl, r.this_ne, r.chain); distinct = r.distinct }),
      )
]

-- Registering the first callback of a port once more, with others behind it, leaves the port with
-- that callback alone. The loop is given enough rounds for those behind it.
pub can_register_cb_again :
    (fuel : ℕ) (c : CanPort) (x y : Ptr) (xs : List Ptr)
    → IsPort c (x ∷ y ∷ xs)
    → length xs + 1 < fuel
    → (c' : CanPort) × (can_register_cb fuel c x ≡ returns c') × IsPort c' (x ∷ [])
unfolding can_register_cb
can_register_cb_again fuel c x y xs is enough =
    let (n', result, cleared) =
      register_loop_head fuel c.next x x (y ∷ xs) is.chain.2 is.distinct.0 (omega arith) in
    (
      record { rx_cbs = x; next = n' },
      unfold register_cb in ground (arith, is.chain, is.distinct, result),
      record { chain = (refl, is.chain.1, cleared); distinct = (refl, tt) },
    )
