-- ===== src/ArduPilot/FileSystem.antt =====
-- DC_PAL_ArduPilot/FileSystem.cpp: files over `AP::FS()`, whose functions are parameters. `new` is
-- taken to give a file object, and assertions are compiled out.
pub mod Laws
use libdronecan.Prelude.{ℕ, ◌-◌, true, List, ◌∷◌, ◌++◌, Option, take}
use libdronecan.Prelude.Int.{ℤ}
use libdronecan.Pal.Links.{Ptr}
use libdronecan.Pal.FileSystem.{Chars, root_path}

pub record FileStore (E : Type 0) : Type 0 where
  pub open_path : Chars → (mode : Chars) → E → ℤ × E
  pub close : ℤ → E → E
  pub read : ℤ → (size : ℕ) → E → ℤ × List ℕ × E
  pub write : ℤ → (bytes : List ℕ) → (size : ℕ) → E → ℤ × E
  pub lseek : ℤ → (offset whence : ℕ) → E → ℤ × E
  pub fsync : ℤ → E → ℤ × E

-- `sizeof(full_path)`
abbrev pub path_size : ℕ
path_size = 256

-- '/'
abbrev pub slash : ℕ
slash = 47

-- `snprintf(full_path, sizeof(full_path), "%s/%s", root_path(), path);` keeps the last byte for
-- the terminator.
pub full_path : (root path : Chars) → Chars
full_path root path = take (path_size - 1) (root ++ (slash ∷ path))

-- `File`, by its descriptor.
abbrev pub File : Type 0
File = ℤ

module _ {E : Type 0} (store : FileStore E) where
  -- `FileSystem::open` of a file system that was made with the root `root`; the file may have the
  -- descriptor -1.
  pub open_file : (root : Option Chars) → Chars → (mode : Chars) → E → File × E
  open_file root path mode env = store.open_path (full_path (root_path true root) path) mode env

  -- `FileSystem::close`: `~File`
  pub close_file : File → E → E
  close_file file env = store.close file env

  pub read : File → (size : ℕ) → E → ℤ × List ℕ × E
  read file size env = store.read file size env

  pub write : File → (bytes : List ℕ) → (size : ℕ) → E → ℤ × E
  write file bytes size env = store.write file bytes size env

  pub seek : File → (offset whence : ℕ) → E → ℤ × E
  seek file offset whence env = store.lseek file offset whence env

  pub flush : File → E → ℤ × E
  flush file env = store.fsync file env

-- `File::stat` hands its arguments to that of `AP::FS()`.
pub stat : {E A : Type 0} → (Chars → E → ℤ × A × E) → Chars → E → ℤ × A × E
stat stat_path pathname env = stat_path pathname env

-- The constructor at `this`: `_instance` afterwards, the assertion being compiled out.
pub construct_fs : (instance_ this : Ptr) → Ptr
construct_fs instance_ this = this
