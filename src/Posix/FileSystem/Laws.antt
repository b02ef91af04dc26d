-- ===== src/Posix/FileSystem/Laws.antt =====
-- What `PosixFS::open` and `close` of DC_PAL_Posix/FileSystem.cpp leave of memory and descriptors.
use libdronecan.Prelude.{
  ℕ, suc, ◌<◌, ◌≡◌, ◌≢◌, refl, ◌∙◌, true, false, ◌⊎◌, inl, inr, none, some, arith, ◌==◌,
  if◌then◌else◌, Bool-cases,
}
use libdronecan.Prelude.Int.{ℤ}
use libdronecan.Pal.Links.{Ptr, null}
use libdronecan.Pal.FileSystem.{Chars}
use libdronecan.Posix.FileSystem.{System, is_error, File, construct_file, delete_file, open_file}

-- How the calls count the blocks of memory and the descriptors in use.
pub record IsCounted {E : Type 0} (os : System E) (blocks fds : E → ℕ) : Type 0 where
  pub allocated :
      (env : E)
      → (blocks (os.allocate env).1
          ≡ (if (os.allocate env).0 == null then blocks env else suc (blocks env)))
        × (fds (os.allocate env).1 ≡ fds env)
  pub freed :
      (p : Ptr) (env : E)
      → p ≢ null
      → 0 < blocks env
      → (suc (blocks (os.free p env)) ≡ blocks env) × (fds (os.free p env) ≡ fds env)
  pub opened :
      (path : Chars) (env : E)
      → (fds (os.open_path path env).1
          ≡ (if is_error (os.open_path path env).0 then fds env else suc (fds env)))
        × (blocks (os.open_path path env).1 ≡ blocks env)
  pub closed :
      (fd : ℤ) (env : E)
      → (is_error fd ≡ true → fds (os.close fd env) ≡ fds env)
        × (is_error fd ≡ false → 0 < fds env → suc (fds (os.close fd env)) ≡ fds env)
        × (blocks (os.close fd env) ≡ blocks env)

module _ {E : Type 0} (os : System E) (blocks fds : E → ℕ) (counted : IsCounted os blocks fds) where
  -- Deleting a file that could not be opened gives its memory back.
  delete_file-failed :
      (p : Ptr) (file : File) (env : E)
      → p ≢ null
      → is_error file.fd ≡ true
      → 0 < blocks env
      → (suc (blocks (delete_file os p file env)) ≡ blocks env)
        × (fds (delete_file os p file env) ≡ fds env)
  unfolding delete_file
  delete_file-failed p file env ne failed some_left =
      let (f1, ok, b1) = counted.closed file.fd env in
      let (b2, f2) = counted.freed p (os.close file.fd env) ne (omega (arith, b1)) in
      (ground (arith, b1, b2), f2 ∙ f1 failed)

  -- `PosixFS::open` either returns null and uses no more memory and descriptors than before, or
  -- ends without a result and leaves a block and a descriptor in use that nobody knows of.
  -- Allocating, opening and their counterparts count as their names say.
  pub open_file-leaks :
      (path : Chars) (env : E)
      → let (result, file, env') = open_file os path env in
        ((result ≡ some null) × (blocks env' ≡ blocks env) × (fds env' ≡ fds env))
        ⊎ ((result ≡ none) × (blocks env' ≡ suc (blocks env)) × (fds env' ≡ suc (fds env)))
  unfolding open_file construct_file
  open_file-leaks path env =
      let (b1, f1) = counted.allocated env in
      let p = (os.allocate env).0 in
      let env1 = (os.allocate env).1 in
      let (f2, b2) = counted.opened path env1 in
      let fd = (os.open_path path env1).0 in
      let file : File = record { fd = fd } in
      elim (Bool-cases (p == null)) [
        | inl none_left ↦ inl (rw none_left (refl, ground (arith, b1), f1))
        | inr got ↦ elim (Bool-cases (is_error fd)) [
          | inl failed ↦
              let (b3, f3) =
                delete_file-failed p file (os.open_path path env1).1 (ground arith) failed
                  (ground (arith, b1, b2)) in
              inl (
                rw (got, failed)
                  (refl, ground (arith, b1, b2, b3), ground (arith, f1, f2, f3, failed)))
          | inr ok ↦ inr (rw (got, ok) (refl, ground (arith, b1, b2), ground (arith, f1, f2)))
        ]
      ]
