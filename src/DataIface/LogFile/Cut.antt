-- ===== src/DataIface/LogFile/Cut.antt =====
-- A log that ends within an entry, as a loss of power while `send` writes leaves it: what
-- `update_rx` of DataIface_LogFile.cpp makes of the part that is there.
use libdronecan.Prelude.{
  ℕ, zero, suc, ◌<◌, ◌≡◌, refl, sym, ap, ◌∙◌, Option, none, some, List, [], ◌∷◌, ◌++◌, length,
  replicate, arith, ◌⊎◌, inl, inr, length-append, ==_ne,
}
use libdronecan.DataIface.Frame.{CanFrame, length-slice}
use libdronecan.DataIface.LogFile.{
  frame_header1, le32, go_on, bind, check_read, read_full, find_header, read_frame, update_rx,
  crc32, data_of,
}
use libdronecan.DataIface.LogFile.Codec.{IsFile, Reads-full, entry, body_with}
use libdronecan.DataIface.LogFile.RoundTrip.{find_header-Reads}
use libdronecan.DataIface.LogFile.Replay.{
  Exchange, sent_of, locals_of, handed_on, AllFrames, log_of, update_all, update_all-log_of,
}

-- A file with fewer bytes left than are asked for gives those it has, and is then at its end.
pub record EndsShort {F : Type 0} (read : ℕ → F → Option (List ℕ) × F) (contents : F → List ℕ)
    : Type 0 where
  pub read_short :
      (n : ℕ) (f : F)
      → length (contents f) < n
      → (f' : F) × (read n f ≡ (some (contents f), f')) × (contents f' ≡ [])

-- `held`, with bytes missing behind it to make up `whole`.
pub record Lacks (held whole : List ℕ) : Type 0 where
  pub byte : ℕ
  pub more : List ℕ
  pub made_up : held ++ (byte ∷ more) ≡ whole

-- What is cut short is cut in its first part or behind it.
Lacks-append :
    (held xs ys : List ℕ)
    → Lacks held (xs ++ ys)
    → Lacks held xs ⊎ ((part : List ℕ) × (held ≡ xs ++ part) × Lacks part ys)
Lacks-append held [] ys h = inr (held, refl, h)
Lacks-append [] (x ∷ xs) ys h = inl (record { byte = x; more = xs; made_up = refl })
Lacks-append (b ∷ held) (x ∷ xs) ys h =
    elim (Lacks-append held xs ys
      (record { byte = h.byte; more = h.more; made_up = cc h.made_up })) [
        | inl cut ↦
            inl (record { byte = cut.byte; more = cut.more; made_up = cc (h.made_up, cut.made_up) })
        | inr (part, e, cut) ↦ inr (part, cc (h.made_up, e), cut)
      ]

Lacks-length : (held whole : List ℕ) → Lacks held whole → length held < length whole
Lacks-length held whole h = rw (sym h.made_up) (omega (arith, length-append held (h.byte ∷ h.more)))

module _ {F : Type 0} {read : ℕ → F → Option (List ℕ) × F} {write : List ℕ → F → Option ℕ × F}
    {contents : F → List ℕ} (file : IsFile read write contents)
    (ends : EndsShort read contents) where
  -- The step returns early, at the end of the file.
  record Fails {A : Type 0} (m : F → Option A × F) (f : F) : Type 0 where
    file_after : F
    result : m f ≡ (none, file_after)
    ended : contents file_after ≡ []

  Fails-full :
      (n : ℕ) (bytes : List ℕ) (f : F)
      → n ≡ length bytes
      → Lacks (contents f) bytes
      → Fails (read_full read n) f
  unfolding read_full
  Fails-full n bytes f e cut =
      let short : length (contents f) < n = rw e (Lacks-length (contents f) bytes cut) in
      let (f', got, ended) = ends.read_short n f short in
      record {
        file_after = f';
        result =
            ap (check_read n) got
            ∙ rw (==_ne (length (contents f)) n (λ e. omega (arith, e, short)));
        ended = ended;
      }

  Fails-bind :
      {A B : Type 0} (m : F → Option A × F) (k : A → F → Option B × F) (f : F)
      → Fails m f
      → Fails (bind m k) f
  Fails-bind m k f stop = record {
    file_after = stop.file_after;
    result = ap (λ s. go_on s k) stop.result;
    ended = stop.ended;
  }

  -- The bytes `xs` are read, if they are all there, and what comes behind them is cut.
  Fails-read :
      {B : Type 0} (n : ℕ) (k : List ℕ → F → Option B × F) (xs ys : List ℕ) (f : F)
      → n ≡ length xs
      → Lacks (contents f) (xs ++ ys)
      → ((g : F) → Lacks (contents g) ys → Fails (k xs) g)
      → Fails (bind (read_full read n) k) f
  Fails-read n k xs ys f e cut next = elim (Lacks-append (contents f) xs ys cut) [
    | inl early ↦ Fails-bind (read_full read n) k f (Fails-full n xs f e early)
    | inr (part, there, late) ↦
        let r = Reads-full file n xs part f e there in
        let stop = next r.file_after (rw r.left late) in
        record {
          file_after = stop.file_after;
          result = ap (λ s. go_on s k) r.result ∙ stop.result;
          ended = stop.ended;
        }
  ]

  Fails-frame :
      (sent frame : CanFrame) (f : F)
      → Lacks (contents f) (body_with (crc32 (data_of sent)) sent)
      → Fails (read_frame read frame) f
  unfolding read_frame
  Fails-frame sent frame f cut = Fails-read 4 _ (le32 sent.id) _ f refl cut λ g cut.
      Fails-read 1 _ (sent.data_len ∷ []) _ g refl cut λ g cut.
        Fails-read sent.data_len _ (data_of sent) _ g
          (sym (length-slice sent.data_len 0 sent.payload)) cut
          λ g cut.
            Fails-bind (read_full read 4) _ g
              (Fails-full 4 (le32 (crc32 (data_of sent))) g refl cut)

  -- A call that finds no more than a part of an entry, or nothing.
  update_rx-Lacks :
      (fuel : ℕ) (sent frame : CanFrame) (f : F)
      → 0 < fuel
      → Lacks (contents f) (entry sent)
      → (f' : F) × (update_rx read fuel frame (some f) ≡ (none, some f')) × (contents f' ≡ [])
  unfolding update_rx find_header
  update_rx-Lacks zero sent frame f pos cut = absurd (omega arith)
  update_rx-Lacks (suc fuel) sent frame f pos cut =
      elim (Lacks-append (contents f) (frame_header1 ∷ []) (body_with (crc32 (data_of sent)) sent)
        cut) [
          | inl early ↦
              let stop = Fails-full 1 (frame_header1 ∷ []) f refl early in
              (stop.file_after, rw stop.result, stop.ended)
          | inr (part, there, late) ↦
              let found = find_header-Reads file (suc fuel) [] part f tt pos there in
              let stop = Fails-frame sent frame found.file_after (rw found.left late) in
              (stop.file_after, rw (found.result, stop.result), stop.ended)
        ]

  -- Nothing is handed on at the end of the file, however often it is called.
  update_all_end :
      (fuel : ℕ) (later : List CanFrame) (f : F)
      → 0 < fuel
      → contents f ≡ []
      → (f' : F) × (update_all read fuel later (some f) ≡ (replicate (length later) none, some f'))
  unfolding update_all
  update_all_end fuel [] f pos empty = (f, refl)
  update_all_end fuel (frame ∷ later) f pos empty =
      let cut : Lacks (contents f) (entry frame) = record {
        byte = frame_header1;
        more = body_with (crc32 (data_of frame)) frame;
        made_up = rw empty;
      } in
      let (f1, none_yet, ended) = update_rx-Lacks fuel frame frame f pos cut in
      let (f2, others) = update_all_end fuel later f1 pos ended in (f2, rw (none_yet, others))

  -- Of a log whose last entry is cut short, wherever it is cut, `update_rx` hands on the frames
  -- of the entries before it, in order, and then nothing, however often it is called. The frames
  -- fit their C types, a reading gives the bytes asked for or, at the end of the file, those that
  -- are left, and the search for the header has a round at least.
  pub update_all-Lacks :
      (fuel : ℕ) (exchanges : List Exchange) (next : CanFrame) (later : List CanFrame)
      (part : List ℕ) (f : F)
      → AllFrames (sent_of exchanges)
      → 0 < fuel
      → Lacks part (entry next)
      → contents f ≡ log_of (sent_of exchanges) ++ part
      → (f' : F) × (update_all read fuel (locals_of exchanges ++ later) (some f)
          ≡ (handed_on exchanges ++ replicate (length later) none, some f'))
  unfolding update_all
  update_all-Lacks fuel exchanges next [] part f fits pos cut h =
      let (f1, whole, left) = update_all-log_of file fuel exchanges [] part f fits pos h in
      (f1, whole)
  update_all-Lacks fuel exchanges next (frame ∷ later) part f fits pos cut h =
      let (f1, whole, left) =
        update_all-log_of file fuel exchanges (frame ∷ later) part f fits pos h in
      let (f2, torn, ended) = update_rx-Lacks fuel next frame f1 pos (rw left cut) in
      let (f3, others) = update_all_end fuel later f2 pos ended in (f3, whole ∙ rw (torn, others))
