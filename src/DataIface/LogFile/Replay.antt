-- ===== src/DataIface/LogFile/Replay.antt =====
-- A whole log of DataIface_LogFile.cpp: a run of `send` into one file, and a run of `update_rx`
-- over the file it leaves, whole or cut short.
use mathlib.Core.List.{append_assoc, append-nil}
use libdronecan.Prelude.{
  ℕ, ◌<◌, ◌≡◌, refl, sym, ap, ◌∙◌, Bool, true, Option, some, List, [], ◌∷◌, ◌++◌, map, length,
  replicate,
}
use libdronecan.DataIface.Frame.{CanFrame, IsFrame}
use libdronecan.DataIface.LogFile.{send, update_rx}
use libdronecan.DataIface.LogFile.Codec.{IsFile, entry}
use libdronecan.DataIface.LogFile.RoundTrip.{received, send-entry, update_rx-entry}

-- One call of `send` for each frame: the results, and the file after the last one.
pub send_all :
    {F : Type 0} → (List ℕ → F → Option ℕ × F) → List CanFrame → Option F → List Bool × Option F
send_all write [] file = ([], file)
send_all write (frame ∷ frames) file =
    let (ok, file') = send write file frame in
    let (oks, last) = send_all write frames file' in (ok ∷ oks, last)

-- One call of `update_rx` for each value that its local variable `frame` holds at its start: the
-- frames handed on, and the file after the last one.
unfoldable pub update_all :
    {F : Type 0}
    → (ℕ → F → Option (List ℕ) × F)
    → ℕ
    → List CanFrame
    → Option F
    → List (Option CanFrame) × Option F
update_all read fuel [] file = ([], file)
update_all read fuel (frame ∷ frames) file =
    let (got, file') = update_rx read fuel frame file in
    let (rest, last) = update_all read fuel frames file' in (got ∷ rest, last)

-- The bytes of the entries, one behind the other.
abbrev pub log_of : List CanFrame → List ℕ
log_of [] = []
log_of (frame ∷ frames) = entry frame ++ log_of frames

-- A frame sent, with what the local variable holds when it is read back.
abbrev pub Exchange : Type 0
Exchange = CanFrame × CanFrame

abbrev pub sent_of : List Exchange → List CanFrame
sent_of = map (λ e. e.0)

abbrev pub locals_of : List Exchange → List CanFrame
locals_of = map (λ e. e.1)

abbrev pub handed_on : List Exchange → List (Option CanFrame)
handed_on = map (λ e. some (received e.0 e.1))

abbrev pub AllFrames : List CanFrame → Type 0
AllFrames [] = Unit
AllFrames (frame ∷ frames) = IsFrame frame × AllFrames frames

module _ {F : Type 0} {read : ℕ → F → Option (List ℕ) × F} {write : List ℕ → F → Option ℕ × F}
    {contents : F → List ℕ} (file : IsFile read write contents) where
  send_all-log_of :
      (frames : List CanFrame) (f : F)
      → (f' : F) × (send_all write frames (some f) ≡ (replicate (length frames) true, some f'))
        × (contents f' ≡ contents f ++ log_of frames)
  unfolding send_all
  send_all-log_of [] f = (f, refl, sym (append-nil (contents f)))
  send_all-log_of (frame ∷ frames) f =
      let (f1, wrote, grown) = send-entry file frame f in
      let (f2, others, grown') = send_all-log_of frames f1 in
      (
        f2,
        rw (wrote, others),
        grown'
            ∙ ap (λ l. l ++ log_of frames) grown
            ∙ append_assoc (contents f) (entry frame) (log_of frames),
      )

  -- The calls that find their entries whole.
  pub update_all-log_of :
      (fuel : ℕ) (exchanges : List Exchange) (later : List CanFrame) (rest : List ℕ) (f : F)
      → AllFrames (sent_of exchanges)
      → 0 < fuel
      → contents f ≡ log_of (sent_of exchanges) ++ rest
      → (f' : F) × (update_all read fuel (locals_of exchanges ++ later) (some f) ≡ (
        handed_on exchanges ++ (update_all read fuel later (some f')).0,
        (update_all read fuel later (some f')).1,
      ))
        × (contents f' ≡ rest)
  unfolding update_all
  update_all-log_of fuel [] later rest f fits pos h = (f, refl, h)
  update_all-log_of fuel ((sent, frame) ∷ es) later rest f (fit, fits) pos h =
      let (f1, got, left) =
        update_rx-entry file fuel sent frame [] (log_of (sent_of es) ++ rest) f fit tt pos
          (h ∙ append_assoc (entry sent) (log_of (sent_of es)) rest) in
      let (f2, others, left') = update_all-log_of fuel es later rest f1 fits pos left in
      (f2, rw (got, others), left')

  -- As many calls of `update_rx` as frames were sent to an empty file hand on those frames, each
  -- with its identifier, length and data, in the order in which they were sent, and read the file
  -- to its end; every `send` returned true. The frames fit their C types, the file takes every
  -- write and reads what was written, and the search for the header has a round at least.
  pub update_all-send_all :
      (fuel : ℕ) (exchanges : List Exchange) (f : F)
      → AllFrames (sent_of exchanges)
      → 0 < fuel
      → contents f ≡ []
      → (f' f'' : F) × (send_all write (sent_of exchanges) (some f)
          ≡ (replicate (length (sent_of exchanges)) true, some f'))
        × (update_all read fuel (locals_of exchanges) (some f') ≡ (handed_on exchanges, some f''))
        × (contents f'' ≡ [])
  unfolding update_all
  update_all-send_all fuel exchanges f fits pos empty =
      let (f1, wrote, grown) = send_all-log_of (sent_of exchanges) f in
      let (f2, read_back, left) =
        update_all-log_of fuel exchanges [] [] f1 fits pos
          (grown ∙ ap (λ l. l ++ log_of (sent_of exchanges)) empty ∙ sym (append-nil _)) in
      (
        f1,
        f2,
        wrote,
        ap (λ l. update_all read fuel l (some f1)) (sym (append-nil _))
            ∙ read_back
            ∙ ap (λ l. (l, some f2)) (append-nil _),
        left,
      )
