-- ===== src/Pal/Links.antt =====
-- Objects that are linked by a `next` pointer: DC_PAL/List.h, Callbacks.h and Worker.h all keep
-- their elements so. A pointer is a number, `null` is 0, and the links are a function that gives
-- the `next` member of each object. A run says whether the code read through a null pointer, and
-- whether its loop was still going when the rounds given to it ended, or an assertion stopped the
-- program.
use libdronecan.Prelude.{
  ℕ, ◌≡◌, ◌≢◌, refl, Bool, true, false, ◌||◌, List, [], ◌∷◌, ◌++◌, arith, ◌==◌, if◌then◌else◌,
}

abbrev pub Ptr : Type 0
Ptr = ℕ

abbrev pub null : Ptr
null = 0

abbrev pub Links : Type 0
Links = Ptr → Ptr

-- `p->next = q`
abbrev pub set_next : Links → Ptr → Ptr → Links
set_next n p q a = if a == p then q else n a

pub data Run {ℓ} (A : Type ℓ) : Type ℓ where
  returns : A → Run A
  null_deref : Run A
  out_of_fuel : Run A
  aborted : Run A

-- The rest of a run, behind a call that came back.
abbrev pub and_then {ℓ κ} : {A : Type ℓ} {B : Type κ} → Run A → (A → Run B) → Run B
and_then (returns a) rest = rest a
and_then null_deref rest = null_deref
and_then out_of_fuel rest = out_of_fuel
and_then aborted rest = aborted

abbrev pub has : Ptr → List Ptr → Bool
has a [] = false
has a (x ∷ xs) = (a == x) || has a xs

abbrev pub Distinct : List Ptr → Type 0
Distinct [] = Unit
Distinct (x ∷ xs) = (has x xs ≡ false) × Distinct xs

-- From `p` the links lead through the objects `xs`, in order, to null.
abbrev pub Chain : Links → Ptr → List Ptr → Type 0
Chain n p [] = p ≡ null
Chain n p (x ∷ xs) = (p ≡ x) × (x ≢ null) × Chain n (n x) xs

-- `n'` differs from `n` at most at the objects `xs`.
abbrev pub SameOutside : List Ptr → Links → Links → Type 0
SameOutside xs n n' = (a : Ptr) → has a xs ≡ false → n' a ≡ n a

-- The list less its first `a`.
abbrev pub erase : Ptr → List Ptr → List Ptr
erase a [] = []
erase a (x ∷ xs) = if a == x then xs else x ∷ erase a xs

pub has-append : (a : Ptr) (xs ys : List Ptr) → has a (xs ++ ys) ≡ (has a xs || has a ys)
has-append a [] ys = refl
has-append a (x ∷ xs) ys = ground (arith, has-append a xs ys)

-- A chain stands as long as its own objects keep their links.
pub Chain-same :
    (n n' : Links) (p : Ptr) (xs : List Ptr)
    → ((a : Ptr) → has a xs ≡ true → n' a ≡ n a)
    → Chain n p xs
    → Chain n' p xs
Chain-same n n' p [] same c = c
Chain-same n n' p (x ∷ xs) same c = (
  c.0,
  c.1,
  Chain-same n n' (n' x) xs (λ a h. same a (ground (arith, h))) (rw (same x (ground arith)) c.2),
)

pub Chain-set_next :
    (n : Links) (p a q : Ptr) (xs : List Ptr)
    → has a xs ≡ false
    → Chain n p xs
    → Chain (set_next n a q) p xs
Chain-set_next n p a q xs out c = Chain-same n (set_next n a q) p xs (λ b h. ground arith) c

-- The list that a chain runs through is determined by its links.
pub Chain-unique : (n : Links) (p : Ptr) (xs ys : List Ptr) → Chain n p xs → Chain n p ys → xs ≡ ys
Chain-unique n p [] [] c d = refl
Chain-unique n p [] (y ∷ ys) c d = absurd (d.1 (omega arith))
Chain-unique n p (x ∷ xs) [] c d = absurd (c.1 (omega arith))
Chain-unique n p (x ∷ xs) (y ∷ ys) c d =
    let e : x ≡ y = omega arith in
    let rest : Chain n (n y) xs = rw e at c.2 in cc (Chain-unique n (n y) xs ys rest d.2)

pub has-erase : (a b : Ptr) (xs : List Ptr) → has b xs ≡ false → has b (erase a xs) ≡ false
has-erase a b [] h = refl
has-erase a b (x ∷ xs) h = ground (arith, has-erase a b xs)

pub Distinct-erase : (a : Ptr) (xs : List Ptr) → Distinct xs → Distinct (erase a xs)
Distinct-erase a [] d = d
Distinct-erase a (x ∷ xs) d = ground (arith, has-erase a x xs, Distinct-erase a xs d.1)

pub Distinct-snoc :
    (xs : List Ptr) (a : Ptr) → Distinct xs → has a xs ≡ false → Distinct (xs ++ (a ∷ []))
Distinct-snoc [] a d out = (refl, tt)
Distinct-snoc (x ∷ xs) a d out =
    (ground (arith, has-append x xs (a ∷ [])), Distinct-snoc xs a d.1 (ground arith))
