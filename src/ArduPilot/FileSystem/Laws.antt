-- ===== src/ArduPilot/FileSystem/Laws.antt =====
-- Which path `FileSystem::open` of DC_PAL_ArduPilot/FileSystem.cpp opens.
use mathlib.Core.List.{append_assoc}
use libdronecan.Prelude.{
  ℕ, zero, suc, ◌+◌, ◌-◌, ◌≤◌, ◌<◌, ◌≡◌, refl, ap, true, List, [], ◌∷◌, ◌++◌, Option, take, length,
  length-append, take-length-append, sym, ◌∙◌, arith,
}
use libdronecan.Pal.FileSystem.{Chars, root_path}
use libdronecan.ArduPilot.FileSystem.{FileStore, path_size, slash, full_path, open_file}

take_all : (n : ℕ) (xs : List ℕ) → length xs ≤ n → take n xs ≡ xs
take_all zero [] le = refl
take_all zero (x ∷ xs) le = absurd (omega arith)
take_all (suc n) [] le = refl
take_all (suc n) (x ∷ xs) le = ap (λ ys. x ∷ ys) (take_all n xs (omega arith))

length-take_le : (n : ℕ) (xs : List ℕ) → length (take n xs) ≤ n
length-take_le zero xs = omega arith
length-take_le (suc n) [] = omega arith
length-take_le (suc n) (x ∷ xs) = omega (arith, length-take_le n xs)

-- A path that fits the buffer is opened behind the root path and a slash.
pub open_file-path :
    {E : Type 0} (store : FileStore E) (root : Option Chars) (path mode : Chars) (env : E)
    → length (root_path true root) + length path + 1 < path_size
    → (open_file store root path mode env
        ≡ store.open_path (root_path true root ++ (slash ∷ path)) mode env)
      × (length (full_path (root_path true root) path) < path_size)
unfolding open_file full_path
open_file-path store root path mode env short =
    let r = root_path true root in
    let whole =
      take_all 255 (r ++ (slash ∷ path)) (omega (arith, length-append r (slash ∷ path))) in
    (
      ap (λ p. store.open_path p mode env) whole,
      omega (arith, length-take_le 255 (r ++ (slash ∷ path))),
    )

-- Of a path that does not fit the buffer, what goes beyond it is cut off.
pub open_file_truncates :
    {E : Type 0} (store : FileStore E) (root : Option Chars) (path more mode : Chars) (env : E)
    → length (root_path true root) + length path + 1 ≡ path_size - 1
    → open_file store root (path ++ more) mode env
      ≡ store.open_path (root_path true root ++ (slash ∷ path)) mode env
unfolding open_file full_path
open_file_truncates store root path more mode env full =
    let name = root_path true root ++ (slash ∷ path) in
    let filled : length name ≡ 255 =
      omega (arith, length-append (root_path true root) (slash ∷ path)) in
    ap (λ p. store.open_path p mode env)
      (ap (take 255) (sym (append_assoc (root_path true root) (slash ∷ path) more))
        ∙ ap (λ n. take n (name ++ more)) (sym filled)
        ∙ take-length-append name more)
