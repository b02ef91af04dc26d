-- ===== src/Posix/FileSystem/Tests.antt =====
-- Opening a file in an environment that counts the blocks and the descriptors in use.
use libdronecan.Prelude.{
  ℕ, suc, ◌-◌, ◌≡◌, ◌⊎◌, refl, [], ◌∷◌, Option, none, some, length, ◌==◌, arith, if◌then◌else◌,
}
use libdronecan.Prelude.Int.{pos, negsuc}
use libdronecan.Pal.Links.{Ptr, null}
use libdronecan.Posix.FileSystem.{System, File, is_error, open_file}
use libdronecan.Posix.FileSystem.Laws.{IsCounted, open_file-leaks}

record Usage : Type 0 where
  blocks : ℕ
  fds : ℕ

-- No file has an empty path.
abbrev counting : System Usage
counting = record {
  allocate = λ e. (8, record e { blocks = suc e.blocks });
  free = λ p e. record e { blocks = e.blocks - 1 };
  open_path =
      λ path e. if length path == 0 then (negsuc 0, e) else (pos 3, record e { fds = suc e.fds });
  close = λ fd e. if is_error fd then e else record e { fds = e.fds - 1 };
  read = λ fd n e. (pos 0, [], e);
  write = λ fd bytes n e. (pos 0, e);
  lseek = λ fd offset whence e. (pos 0, e);
  fsync = λ fd e. (pos 0, e);
}

counting-IsCounted : IsCounted counting (λ e. e.blocks) (λ e. e.fds)
unfolding is_error
counting-IsCounted = record {
  allocated = λ e. (refl, refl);
  freed = λ p e ne h. (omega arith, refl);
  opened = λ path e. ground arith;
  closed = λ fd e. ((λ b. rw b refl), (λ b h. rw b (omega arith)), ground arith);
}

abbrev nothing : Usage
nothing = record { blocks = 0; fds = 0 }

abbrev opened : Option Ptr × Option File × Usage
opened = open_file counting (97 ∷ []) nothing

open_file-leaks_example :
    ((opened.0 ≡ some null) × (opened.2.blocks ≡ 0) × (opened.2.fds ≡ 0))
    ⊎ ((opened.0 ≡ none) × (opened.2.blocks ≡ 1) × (opened.2.fds ≡ 1))
open_file-leaks_example =
    open_file-leaks counting (λ e. e.blocks) (λ e. e.fds) counting-IsCounted (97 ∷ []) nothing
