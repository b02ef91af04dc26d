-- ===== src/DataIface/LogFile/RoundTrip.antt =====
-- What `send` of DataIface_LogFile.cpp writes, and what `update_rx` makes of it.
use mathlib.Core.List.{append_assoc}
use libdronecan.Prelude.{
  ℕ, zero, suc, ◌^◌, ◌<◌, ◌≡◌, ◌≢◌, refl, sym, ◌∙◌, true, Option, none, some, List, [], ◌∷◌, ◌++◌,
  length, arith, ==_self, ==_ne,
}
use libdronecan.DataIface.Frame.{CanFrame, IsFrame, length-slice}
use libdronecan.DataIface.LogFile.{
  frame_header1, crc32, le32, data_of, overlay, check_crc, send_steps, send, find_header,
  read_frame, update_rx,
}
use libdronecan.DataIface.LogFile.Codec.{
  IsFile, body_with, entry_with, entry, le32_round_trip, crc32-lt, Reads, Reads-full, Wrote,
  Wrote-full, Wrote-bind,
}

abbrev pub NoHeader : List ℕ → Type 0
NoHeader [] = Unit
NoHeader (x ∷ xs) = (x ≢ frame_header1) × NoHeader xs

-- The frame that an entry is read into `frame` as.
abbrev pub received : CanFrame → CanFrame → CanFrame
received sent frame = record frame {
  id = sent.id;
  data_len = sent.data_len;
  payload = overlay (data_of sent) frame.payload;
}

module _ {F : Type 0} {read : ℕ → F → Option (List ℕ) × F} {write : List ℕ → F → Option ℕ × F}
    {contents : F → List ℕ} (file : IsFile read write contents) where
  send_steps-Wrote :
      (frame : CanFrame) (f : F) → Wrote file (send_steps write frame) f (entry frame)
  unfolding send_steps
  send_steps-Wrote frame f =
      Wrote-bind file _ _ f (frame_header1 ∷ []) (body_with (crc32 (data_of frame)) frame)
        (Wrote-full file (frame_header1 ∷ []) f)
        λ g1. Wrote-bind file _ _ g1 (le32 frame.id) _ (Wrote-full file (le32 frame.id) g1) λ g2.
          Wrote-bind file _ _ g2 (frame.data_len ∷ []) _ (Wrote-full file (frame.data_len ∷ []) g2)
            λ g3.
              Wrote-bind file _ _ g3 (data_of frame) _ (Wrote-full file (data_of frame) g3)
                λ g4. Wrote-full file (le32 (crc32 (data_of frame))) g4

  -- On a file that takes every write in full, `send` returns true and appends header, identifier,
  -- length, data and checksum, in this order.
  pub send-entry :
      (frame : CanFrame) (f : F)
      → (f' : F) × (send write (some f) frame ≡ (true, some f'))
        × (contents f' ≡ contents f ++ entry frame)
  unfolding send
  send-entry frame f = let w = send_steps-Wrote frame f in (w.file_after, rw w.result, w.grown)

  pub find_header-Reads :
      (k : ℕ) (junk rest : List ℕ) (f : F)
      → NoHeader junk
      → length junk < k
      → contents f ≡ junk ++ ((frame_header1 ∷ []) ++ rest)
      → Reads file (find_header read k) f tt rest
  unfolding find_header
  find_header-Reads zero junk rest f clean lt h = absurd (omega arith)
  find_header-Reads (suc k) [] rest f clean lt h =
      let r = Reads-full file 1 (frame_header1 ∷ []) rest f refl h in
      record { file_after = r.file_after; result = rw r.result; left = r.left }
  find_header-Reads (suc k) (x ∷ junk) rest f clean lt h =
      let r = Reads-full file 1 (x ∷ []) (junk ++ ((frame_header1 ∷ []) ++ rest)) f refl h in
      let again = find_header-Reads k junk rest r.file_after clean.1 (omega arith) r.left in
      record {
        file_after = again.file_after;
        result = rw r.result (ground (arith, again.result, ==_ne x frame_header1 clean.0));
        left = again.left;
      }

  -- The reads behind the header, down to the test of the checksum.
  read_frame-check :
      (crc : ℕ) (sent frame : CanFrame) (rest : List ℕ) (f : F)
      → contents f ≡ body_with crc sent ++ rest
      → (f' : F) × (read_frame read frame f
          ≡ check_crc frame (le32 sent.id) sent.data_len (data_of sent) (le32 crc) f')
        × (contents f' ≡ rest)
  unfolding read_frame
  read_frame-check crc sent frame rest f h =
      let r1 = Reads-full file 4 (le32 sent.id) _ f refl h in
      let r2 = Reads-full file 1 (sent.data_len ∷ []) _ r1.file_after refl r1.left in
      let r3 =
        Reads-full file sent.data_len (data_of sent) (le32 crc ++ rest) r2.file_after
          (sym (length-slice sent.data_len 0 sent.payload))
          (r2.left ∙ append_assoc (data_of sent) (le32 crc) rest) in
      let r4 = Reads-full file 4 (le32 crc) rest r3.file_after refl r3.left in
      (r4.file_after, rw (r1.result, r2.result, r3.result, r4.result), r4.left)

  -- At the entry of a frame behind bytes that are no header byte, `update_rx` skips those bytes,
  -- hands on the frame with the identifier, length and data that were sent, and leaves the file
  -- behind the entry. The frame fits its C types, and the rounds given to the search for the
  -- header are more than the bytes skipped.
  pub update_rx-entry :
      (fuel : ℕ) (sent frame : CanFrame) (junk rest : List ℕ) (f : F)
      → IsFrame sent
      → NoHeader junk
      → length junk < fuel
      → contents f ≡ junk ++ (entry sent ++ rest)
      → (f' : F) × (update_rx read fuel frame (some f) ≡ (some (received sent frame), some f'))
        × (contents f' ≡ rest)
  unfolding update_rx
  update_rx-entry fuel sent frame junk rest f w clean lt h =
      let found =
        find_header-Reads fuel junk (body_with (crc32 (data_of sent)) sent ++ rest) f clean lt h in
      let (f', checked, left) =
        read_frame-check (crc32 (data_of sent)) sent frame rest found.file_after found.left in
      (
        f',
        rw (
          found.result,
          checked,
          le32_round_trip (crc32 (data_of sent)) (crc32-lt (data_of sent)),
          le32_round_trip sent.id w.id_fits,
          ==_self (crc32 (data_of sent)),
        ),
        left,
      )

  -- An entry whose checksum field is other than the checksum of its data is read to its end and
  -- handed on to nobody. The field fits 32 bits, the bytes before the entry are no header bytes,
  -- and the rounds given to the search are more than those bytes.
  pub update_rx-corrupt :
      (fuel crc : ℕ) (sent frame : CanFrame) (junk rest : List ℕ) (f : F)
      → NoHeader junk
      → length junk < fuel
      → crc < 2 ^ 32
      → crc ≢ crc32 (data_of sent)
      → contents f ≡ junk ++ (entry_with crc sent ++ rest)
      → (f' : F) × (update_rx read fuel frame (some f) ≡ (none, some f')) × (contents f' ≡ rest)
  unfolding update_rx
  update_rx-corrupt fuel crc sent frame junk rest f clean lt fits ne h =
      let found = find_header-Reads fuel junk (body_with crc sent ++ rest) f clean lt h in
      let (f', checked, left) = read_frame-check crc sent frame rest found.file_after found.left in
      (
        f',
        rw (found.result, checked, le32_round_trip crc fits, ==_ne crc (crc32 (data_of sent)) ne),
        left,
      )
