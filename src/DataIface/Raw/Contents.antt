-- ===== src/DataIface/Raw/Contents.antt =====
-- The unread bytes of the ring of DataIface_Raw.cpp, as a list, and its representation invariant.
use native.Mathlib.Nat.{mod-add-mod, mod-eq_of_lt, mod-eq-sub-mod, mod-lt}
use libdronecan.Prelude.{
  ℕ, zero, suc, ◌+◌, ◌-◌, ◌%◌, ◌≤◌, ◌<◌, ◌≡◌, ◌≢◌, refl, sym, ◌∙◌, ap, ap₂, List, [], ◌∷◌, ◌++◌,
  length, get_or, set, drop, length-set, get_or-set_self, get_or-set_ne, arith, dec_lt, dec_le,
}
use libdronecan.DataIface.Raw.{Buffer, size_mod, available, pushbyte, peekbyte}

-- The storage holds `size` bytes, the indices lie in it, and no `size_t` sum of the code wraps.
pub record IsValid (b : Buffer) : Type 0 where
  pub storage : b.size ≤ length b.buffer
  pub small : b.size + 512 ≤ size_mod
  pub head_in : b.head < b.size
  pub tail_in : b.tail < b.size

module _ (buf : List ℕ) (size : ℕ) where
  -- The `n` bytes from index `h` on, going round at `size`.
  abbrev pub window : ℕ → ℕ → List ℕ
  window h zero = []
  window h (suc n) = get_or buf h 0 ∷ window ((h + 1) % size) n

-- The bytes that were pushed and not yet popped, oldest first.
abbrev pub contents : Buffer → List ℕ
contents b = window b.buffer b.size b.tail (available b)

module _ (buf : List ℕ) (size : ℕ) where
  pub length-window : (h n : ℕ) → length (window buf size h n) ≡ n
  length-window h zero = refl
  length-window h (suc n) = ap suc (length-window ((h + 1) % size) n)

  -- Two steps round the ring are one.
  pub mod_shift : (h j : ℕ) → ((h + 1) % size + j) % size ≡ (h + suc j) % size
  mod_shift h j = mod-add-mod (h + 1) size j ∙ ap (λ t. t % size) (omega arith)

  pub get_or-window :
      (h n i : ℕ)
      → h < size
      → i < n
      → get_or (window buf size h n) i 0 ≡ get_or buf ((h + i) % size) 0
  get_or-window h zero i hs lt = absurd (omega arith)
  get_or-window h (suc n) zero hs lt =
      ap (λ k. get_or buf k 0) (sym (mod-eq_of_lt hs) ∙ ap (λ t. t % size) (omega arith))
  get_or-window h (suc n) (suc i) hs lt =
      get_or-window ((h + 1) % size) n i (mod-lt (h + 1) (omega arith)) (omega arith)
      ∙ ap (λ k. get_or buf k 0) (mod_shift h i)

  pub drop-window :
      (k h n : ℕ)
      → h < size
      → k ≤ n
      → drop k (window buf size h n) ≡ window buf size ((h + k) % size) (n - k)
  drop-window zero h n hs le =
      ap₂ (window buf size) (sym (mod-eq_of_lt hs) ∙ ap (λ t. t % size) (omega arith)) (omega arith)
  drop-window (suc k) h zero hs le = absurd (omega arith)
  drop-window (suc k) h (suc n) hs le =
      drop-window k ((h + 1) % size) n (mod-lt (h + 1) (omega arith)) (omega arith)
      ∙ ap₂ (window buf size) (mod_shift h k) (omega arith)

-- Fewer than `size` steps round the ring do not come back to the start.
step-ne : (size h k : ℕ) → h < size → suc k < size → (h + suc k) % size ≢ h
step-ne size h k hh hk = elim (dec_lt (h + suc k) size) [
  | yes p ↦ omega (arith, mod-eq_of_lt p)
  | no p ↦ omega (
    arith,
    mod-eq-sub-mod {n = h + suc k} {m = size} (omega arith),
    mod-eq_of_lt {n = h + suc k - size} {m = size} (omega arith),
  )
]

-- A write just past a window makes it longer by that byte.
window-set :
    (buf : List ℕ) (size x n h i : ℕ)
    → size ≤ length buf
    → h < size
    → n < size
    → i ≡ (h + n) % size
    → window (set buf i x) size h (suc n) ≡ window buf size h n ++ (x ∷ [])
window-set buf size x zero h i hs hh hn e =
    let at : i ≡ h = e ∙ ap (λ t. t % size) (omega arith) ∙ mod-eq_of_lt hh in
    ap (λ v. v ∷ [])
      (ap (λ k. get_or (set buf i x) k 0) (sym at) ∙ get_or-set_self buf i x 0 (omega arith))
window-set buf size x (suc n) h i hs hh hn e =
    ap₂ ◌∷◌ (get_or-set_ne buf i h x 0 (λ q. step-ne size h n hh hn (sym e ∙ q))) (
      window-set buf size x n ((h + 1) % size) i hs (mod-lt (h + 1) (omega arith)) (omega arith)
        (e ∙ sym (mod_shift buf size h n)))

pub available-empty : (b : Buffer) → b.head ≡ b.tail → available b ≡ 0
unfolding available
available-empty b e = ground arith

module _ {b : Buffer} (v : IsValid b) where
  pub available-lt : available b < b.size
  unfolding available
  available-lt = ground (arith, v.small, v.head_in, v.tail_in)

  -- The oldest byte and the count lead to the next free index.
  pub available-head : (b.tail + available b) % b.size ≡ b.head
  unfolding available
  available-head = elim (dec_le b.tail b.head) [
    | yes p ↦
        ap (λ t. t % b.size)
          (let e : b.tail + available b ≡ b.head = ground (arith, v.head_in) in e)
        ∙ mod-eq_of_lt v.head_in
    | no p ↦
        ap (λ t. t % b.size)
          (let e : b.tail + available b ≡ b.size + b.head =
              ground (arith, v.small, v.head_in, v.tail_in) in
            e)
        ∙ mod-eq-sub-mod {n = b.size + b.head} {m = b.size} (omega arith)
        ∙ ap (λ t. t % b.size) (let e : b.size + b.head - b.size ≡ b.head = omega arith in e)
        ∙ mod-eq_of_lt v.head_in
  ]

  pub pushbyte-head : (x : ℕ) → (pushbyte b x).head ≡ (b.head + 1) % b.size
  unfolding pushbyte
  pushbyte-head x = elim (dec_lt (b.head + 1) b.size) [
    | yes p ↦ ground (arith, v.small, mod-eq_of_lt {n = b.head + 1} {m = b.size} p)
    | no p ↦ ground (
      arith,
      v.small,
      v.head_in,
      mod-eq-sub-mod {n = b.head + 1} {m = b.size} (omega (arith, v.head_in)),
      mod-eq_of_lt {n = b.head + 1 - b.size} {m = b.size} (omega (arith, v.head_in)),
    )
  ]

  pub pushbyte-IsValid : (x : ℕ) → IsValid (pushbyte b x)
  unfolding pushbyte
  pushbyte-IsValid x = ground (arith, length-set b.buffer b.head x)

  pub available-pushbyte :
      (x : ℕ) → available b + 1 < b.size → available (pushbyte b x) ≡ available b + 1
  unfolding pushbyte available
  available-pushbyte x room = ground arith

  pub peekbyte-contents :
      (i : ℕ) → i < 512 → i < available b → peekbyte b i ≡ get_or (contents b) i 0
  unfolding peekbyte
  peekbyte-contents i small lt =
      ap (λ k. get_or b.buffer (k % b.size) 0)
        (mod-eq_of_lt (omega (arith, v.small, v.tail_in, available-lt)))
      ∙ sym (get_or-window b.buffer b.size b.tail (available b) i v.tail_in lt)

  pub contents-pushbyte :
      (x : ℕ) → available b + 1 < b.size → contents (pushbyte b x) ≡ contents b ++ (x ∷ [])
  unfolding pushbyte
  contents-pushbyte x room =
      let count : available (pushbyte b x) ≡ suc (available b) =
        omega (arith, available-pushbyte x room) in
      ap (window (set b.buffer b.head x) b.size b.tail) count ∙ grow
    where
      grow :
          window (set b.buffer b.head x) b.size b.tail (suc (available b)) ≡ contents b ++ (x ∷ [])
      grow =
          window-set b.buffer b.size x (available b) b.tail b.head v.storage v.tail_in available-lt
            (sym available-head)

  -- The count is fixed by where it leads to.
  pub available_unique : (a : ℕ) → a < b.size → (b.tail + a) % b.size ≡ b.head → available b ≡ a
  unfolding available
  available_unique a small e = elim (dec_lt (b.tail + a) b.size) [
    | yes p ↦ ground (arith, mod-eq_of_lt {n = b.tail + a} {m = b.size} p)
    | no p ↦ ground (
      arith,
      v.small,
      v.tail_in,
      mod-eq-sub-mod {n = b.tail + a} {m = b.size} (omega arith),
      mod-eq_of_lt {n = b.tail + a - b.size} {m = b.size} (omega (arith, v.tail_in)),
    )
  ]
