-- ===== src/DataIface/LogFile/Codec.antt =====
-- What DataIface_LogFile.cpp relies on of a file, the bytes of one entry of the log, and the
-- steps that read and write them.
use mathlib.Core.List.{append_assoc}
use libdronecan.Prelude.{
  ℕ, ◌^◌, ◌<◌, ◌≡◌, ◌∙◌, ap, Option, some, List, [], ◌∷◌, ◌++◌, length, arith, ==_self,
}
use libdronecan.DataIface.Frame.{CanFrame, slice}
use libdronecan.DataIface.LogFile.{
  frame_header1, crc32, le32, of_le32, go_on, bind, check_read, check_write, read_full, write_full,
}

-- A file that holds enough bytes reads them all, and a write takes all its bytes and puts them
-- at the end; `contents` is what is still to be read, or what was written.
pub record IsFile {F : Type 0} (read : ℕ → F → Option (List ℕ) × F)
    (write : List ℕ → F → Option ℕ × F) (contents : F → List ℕ) : Type 0 where
  pub read_all :
      (bytes rest : List ℕ) (f : F)
      → contents f ≡ bytes ++ rest
      → (f' : F) × (read (length bytes) f ≡ (some bytes, f')) × (contents f' ≡ rest)
  pub write_all :
      (bytes : List ℕ) (f : F)
      → (f' : F) × (write bytes f ≡ (some (length bytes), f')) × (contents f' ≡ contents f ++ bytes)

-- The entry of a frame whose checksum field is `crc`.
abbrev pub body_with : ℕ → CanFrame → List ℕ
body_with crc frame =
    le32 frame.id ++ ((frame.data_len ∷ []) ++ (slice frame.data_len 0 frame.payload ++ le32 crc))

abbrev pub entry_with : ℕ → CanFrame → List ℕ
entry_with crc frame = (frame_header1 ∷ []) ++ body_with crc frame

-- The entry that `send` writes.
abbrev pub entry : CanFrame → List ℕ
entry frame = entry_with (crc32 (slice frame.data_len 0 frame.payload)) frame

pub le32_round_trip : (x : ℕ) → x < 2 ^ 32 → of_le32 (le32 x) ≡ x
le32_round_trip x h = omega arith

pub crc32-lt : (bytes : List ℕ) → crc32 bytes < 2 ^ 32
unfolding crc32
crc32-lt bytes = omega arith

module _ {F : Type 0} {read : ℕ → F → Option (List ℕ) × F} {write : List ℕ → F → Option ℕ × F}
    {contents : F → List ℕ} (file : IsFile read write contents) where
  -- The step gives `a` and leaves `rest` to be read.
  pub record Reads {A : Type 0} (m : F → Option A × F) (f : F) (a : A) (rest : List ℕ)
      : Type 0 where
    pub file_after : F
    pub result : m f ≡ (some a, file_after)
    pub left : contents file_after ≡ rest

  pub Reads-full :
      (n : ℕ) (bytes rest : List ℕ) (f : F)
      → n ≡ length bytes
      → contents f ≡ bytes ++ rest
      → Reads (read_full read n) f bytes rest
  unfolding read_full
  Reads-full n bytes rest f e h =
      let (f', got, left) = file.read_all bytes rest f h in
      rw e (record {
        file_after = f';
        result = ap (check_read (length bytes)) got ∙ rw (==_self (length bytes));
        left = left;
      })

  pub Reads-bind :
      {A B : Type 0} (m : F → Option A × F) (k : A → F → Option B × F) (f : F) (a : A) (b : B)
      (mid rest : List ℕ)
      → Reads m f a mid
      → ((g : F) → contents g ≡ mid → Reads (k a) g b rest)
      → Reads (bind m k) f b rest
  Reads-bind m k f a b mid rest r next =
      let r' = next r.file_after r.left in
      record {
        file_after = r'.file_after;
        result = ap (λ s. go_on s k) r.result ∙ r'.result;
        left = r'.left;
      }

  -- The step succeeds and puts `bytes` at the end.
  pub record Wrote (m : F → Option (Unit {0}) × F) (f : F) (bytes : List ℕ) : Type 0 where
    pub file_after : F
    pub result : m f ≡ (some tt, file_after)
    pub grown : contents file_after ≡ contents f ++ bytes

  pub Wrote-full : (bytes : List ℕ) (f : F) → Wrote (write_full write bytes) f bytes
  unfolding write_full
  Wrote-full bytes f =
      let (f', got, grown) = file.write_all bytes f in
      record {
        file_after = f';
        result = ap (check_write (length bytes)) got ∙ rw (==_self (length bytes));
        grown = grown;
      }

  pub Wrote-bind :
      (m : F → Option (Unit {0}) × F) (k : Unit {0} → F → Option (Unit {0}) × F) (f : F)
      (xs ys : List ℕ)
      → Wrote m f xs
      → ((g : F) → Wrote (k tt) g ys)
      → Wrote (bind m k) f (xs ++ ys)
  Wrote-bind m k f xs ys w next =
      let w' = next w.file_after in
      record {
        file_after = w'.file_after;
        result = ap (λ s. go_on s k) w.result ∙ w'.result;
        grown = w'.grown ∙ ap (λ l. l ++ ys) w.grown ∙ append_assoc (contents f) xs ys;
      }
