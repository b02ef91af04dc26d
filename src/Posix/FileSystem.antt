-- ===== src/Posix/FileSystem.antt =====
-- DC_PAL_Posix/FileSystem.cpp: files over the calls of the system, which are parameters, as are
-- the allocation and the release of memory. Flags and modes of `open` are constants there, and the
-- mode that the caller asks for is not read.
pub mod Laws
mod Tests
use libdronecan.Prelude.{ℕ, Bool, true, false, Option, none, some, List, ◌==◌, if◌then◌else◌}
use libdronecan.Prelude.Int.{ℤ, pos, negsuc}
use libdronecan.Pal.Links.{Ptr, null}
use libdronecan.Pal.FileSystem.{Chars}

pub record System (E : Type 0) : Type 0 where
  -- `dronecan::allocate`: null if there is no memory.
  pub allocate : E → Ptr × E
  pub free : Ptr → E → E
  -- `::open(path, O_RDWR | O_CREAT, 0777)`, and the other calls on a descriptor.
  pub open_path : Chars → E → ℤ × E
  pub close : ℤ → E → E
  pub read : ℤ → (size : ℕ) → E → ℤ × List ℕ × E
  pub write : ℤ → (bytes : List ℕ) → (size : ℕ) → E → ℤ × E
  pub lseek : ℤ → (offset whence : ℕ) → E → ℤ × E
  pub fsync : ℤ → E → ℤ × E

-- `fd == -1`
pub is_error : ℤ → Bool
is_error (pos n) = false
is_error (negsuc n) = n == 0

-- `PosixFile`
pub record File : Type 0 where
  pub fd : ℤ

module _ {E : Type 0} (os : System E) where
  -- `PosixFile::PosixFile`
  pub construct_file : Chars → E → File × E
  construct_file path env = let (fd, env1) = os.open_path path env in (record { fd = fd }, env1)

  -- `delete file`: the destructor closes the descriptor, whatever it is.
  pub delete_file : Ptr → File → E → E
  delete_file p file env = os.free p (os.close file.fd env)

  -- `PosixFS::open`: its result, the file at the pointer that it allocated, and the environment.
  -- `none`: the function ends without a result.
  pub open_file : Chars → E → Option Ptr × Option File × E
  open_file path env =
      let (p, env1) = os.allocate env in
      if p == null
      then (some null, none, env1)
      else let (file, env2) = construct_file path env1 in
        if is_error file.fd
        then (some null, none, delete_file p file env2)
        else (none, some file, env2)

  -- `PosixFS::close`
  pub close_file : Ptr → File → E → E
  close_file p file env = delete_file p file env

  pub read : File → (size : ℕ) → E → ℤ × List ℕ × E
  read file size env = os.read file.fd size env

  pub write : File → (bytes : List ℕ) → (size : ℕ) → E → ℤ × E
  write file bytes size env = os.write file.fd bytes size env

  pub seek : File → (offset whence : ℕ) → E → ℤ × E
  seek file offset whence env = os.lseek file.fd offset whence env

  pub flush : File → E → ℤ × E
  flush file env = os.fsync file.fd env

-- `PosixFile::stat` hands its arguments to `::stat`, which gives a result and a `struct stat`.
pub stat : {E A : Type 0} → (Chars → E → ℤ × A × E) → Chars → E → ℤ × A × E
stat stat_path pathname env = stat_path pathname env

-- The constructor of `PosixFS` at `this`: `_instance` afterwards; `none`: the assertion stops the
-- program.
pub construct_fs : (instance_ this : Ptr) → Option Ptr
construct_fs instance_ this = if instance_ == null then some this else none
