-- ===== src/Pal/Callbacks/CallAll.antt =====
-- `call_all` of DC_PAL/Callbacks.h.
use mathlib.Core.List.{foldl}
use libdronecan.Prelude.{ℕ, zero, suc, ◌<◌, ◌≡◌, ◌≢◌, ◌∙◌, ap, List, [], ◌∷◌, length, arith, ==_ne}
use libdronecan.Pal.Links.{Ptr, null, Links, returns, Chain}
use libdronecan.Pal.Callbacks.{call_loop, call_all}
use libdronecan.Pal.Callbacks.Laws.{Registered}

module _ {S : Type 0} (links : S → Links) (call : Ptr → S → S)
    (keeps : (p : Ptr) (s : S) → links (call p s) ≡ links s) where
  call_loop-step :
      (k : ℕ) (p : Ptr) (s : S)
      → p ≢ null
      → call_loop links call (suc k) p s ≡ call_loop links call k (links (call p s) p) (call p s)
  unfolding call_loop
  call_loop-step k p s h = rw (==_ne p null h, call_loop)

  call_loop-foldl :
      (k : ℕ) (p : Ptr) (s : S) (xs : List Ptr)
      → Chain (links s) p xs
      → length xs < k
      → call_loop links call k p s ≡ returns (foldl (λ s' q. call q s') s xs)
  unfolding call_loop
  call_loop-foldl zero p s xs c fuel = absurd (omega arith)
  call_loop-foldl (suc k) p s [] c fuel = rw (c, call_loop)
  call_loop-foldl (suc k) p s (x ∷ xs) c fuel =
      let again : links (call p s) ≡ links s = keeps p s in
      call_loop-step k p s (omega (arith, c.0, c.1))
      ∙ call_loop-foldl k (links (call p s) p) (call p s) xs (rw (again, c.0) c.2) (omega arith)
      ∙ ap (λ q. returns (foldl (λ s' r. call r s') (call q s) xs)) c.0

  -- If no callback changes the links, `call_all` calls each of the callbacks once, in the order
  -- of registration, and ends within one round more than there are callbacks.
  pub call_all-foldl :
      (fuel : ℕ) (this : Ptr) (s : S) (xs : List Ptr)
      → Registered (links s) this xs
      → length xs < fuel
      → call_all links call fuel this s ≡ returns (foldl (λ s' q. call q s') s xs)
  unfolding call_all
  call_all-foldl fuel this s xs r enough = call_loop-foldl fuel (links s this) s xs r.chain enough
