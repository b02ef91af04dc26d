-- ===== src/DataIface/LogFile/Tests.antt =====
-- Runs of the log file on a file that is the list of its bytes.
use libdronecan.Prelude.{
  ◌-◌, ◌^◌, get_or, ℕ, ◌≡◌, refl, true, false, Option, none, some, List, [], ◌∷◌, ◌++◌, length,
  take, drop, arith, take-length-append, ◌<◌, zero, suc, drop-length-append, ap, ap₂, ◌∙◌,
  replicate,
}
use libdronecan.DataIface.Frame.{CanFrame, IsFrame}
use libdronecan.DataIface.LogFile.{crc32, crc_bytes, crc_bits, crc_bit, update_rx}
use libdronecan.DataIface.LogFile.Codec.{IsFile, entry_with}
use libdronecan.DataIface.LogFile.RoundTrip.{received}
use libdronecan.DataIface.LogFile.Replay.{
  Exchange, send_all, update_all, sent_of, locals_of, handed_on, log_of, update_all-send_all,
}
use libdronecan.DataIface.LogFile.Cut.{EndsShort, update_all-Lacks}
use libdronecan.DataIface.LogFile.Burst.{update_rx_burst}
use libdronecan.DataIface.LogFile.Serial.{bits_of, divide, crc32-divide}

abbrev small : CanFrame
small = record {
  id = 0x80000301;
  data_len = 2;
  payload = 5 ∷ 6 ∷ [];
  canfd = false;
  timestamp_usec = 0;
}

small-IsFrame : IsFrame small
small-IsFrame = record { id_fits = omega arith; len_fits = omega arith }

-- The local variable of `update_rx`.
abbrev blank : CanFrame
blank = record { id = 0; data_len = 0; payload = replicate 8 0; canfd = false; timestamp_usec = 0 }

-- Reading takes from the front, writing adds at the end.
abbrev read_list : ℕ → List ℕ → Option (List ℕ) × List ℕ
read_list n f = (some (take n f), drop n f)

abbrev write_list : List ℕ → List ℕ → Option ℕ × List ℕ
write_list bytes f = (some (length bytes), f ++ bytes)

list-IsFile : IsFile read_list write_list (λ f. f)
list-IsFile = record {
  read_all = λ bytes rest f e. (
    rest,
    ap (λ l. (some (take (length bytes) l), drop (length bytes) l)) e
        ∙ ap₂ (λ a b. (some a, b)) (take-length-append bytes rest) (drop-length-append bytes rest),
    refl,
  );
  write_all = λ bytes f. (f ++ bytes, refl, refl);
}

take-all : (n : ℕ) (xs : List ℕ) → length xs < n → (take n xs ≡ xs) × (drop n xs ≡ [])
take-all zero xs lt = absurd (omega arith)
take-all (suc n) [] lt = (refl, refl)
take-all (suc n) (x ∷ xs) lt =
    let (front, back) = take-all n xs (omega arith) in (ap (λ l. x ∷ l) front, back)

list-EndsShort : EndsShort read_list (λ f. f)
list-EndsShort = record {
  read_short = λ n f lt.
      let (front, back) = take-all n f lt in (drop n f, ap (λ l. (some l, drop n f)) front, back);
}

-- A second frame without data.
abbrev bare : CanFrame
bare = record { id = 7; data_len = 0; payload = []; canfd = false; timestamp_usec = 0 }

bare-IsFrame : IsFrame bare
bare-IsFrame = record { id_fits = omega arith; len_fits = omega arith }

abbrev two : List Exchange
two = (small, blank) ∷ (bare, small) ∷ []

update_all-send_all_example :
    (f' f'' : List ℕ) × (send_all write_list (sent_of two) (some []) ≡ (true ∷ true ∷ [], some f'))
    × (update_all read_list 1 (locals_of two) (some f') ≡ (handed_on two, some f''))
    × (f'' ≡ [])
update_all-send_all_example =
    update_all-send_all list-IsFile 1 two [] (small-IsFrame, (bare-IsFrame, tt)) (omega arith) refl

-- The second entry ends within its identifier.
update_all-Lacks_example :
    (f' : List ℕ) × (update_all read_list 1
        (blank ∷ small ∷ small ∷ [])
        (some (log_of (small ∷ []) ++ (0x34 ∷ 7 ∷ 0 ∷ [])))
      ≡ (some (received small blank) ∷ none ∷ none ∷ [], some f'))
update_all-Lacks_example =
    update_all-Lacks list-IsFile list-EndsShort 1 ((small, blank) ∷ []) bare (small ∷ small ∷ [])
      (0x34 ∷ 7 ∷ 0 ∷ []) (log_of (small ∷ []) ++ (0x34 ∷ 7 ∷ 0 ∷ [])) (small-IsFrame, tt)
      (omega arith) (record { byte = 0; more = _; made_up = refl }) refl

-- The checksum of the nine digits that descriptions of the algorithm give.
check_value : crc32 (49 ∷ 50 ∷ 51 ∷ 52 ∷ 53 ∷ 54 ∷ 55 ∷ 56 ∷ 57 ∷ []) ≡ 0xCBF43926
unfolding crc32 crc_bytes crc_bits crc_bit
check_value = refl

crc32-divide_example : crc32 (5 ∷ 6 ∷ []) ≡ 2 ^ 32 - 1 - divide (bits_of (5 ∷ 6 ∷ [])) (2 ^ 32 - 1)
crc32-divide_example = crc32-divide (5 ∷ 6 ∷ []) (omega arith, (omega arith, tt))

-- The last byte of the data of `small` was damaged.
abbrev damaged : CanFrame
damaged = record small { payload = 5 ∷ 7 ∷ [] }

update_rx_burst_example :
    (f' : List ℕ) × (update_rx read_list 1 blank
        (some (entry_with (crc32 (5 ∷ 6 ∷ [])) damaged ++ (8 ∷ [])))
      ≡ (none, some f'))
    × (f' ≡ 8 ∷ [])
update_rx_burst_example =
    update_rx_burst list-IsFile 1 small damaged blank (5 ∷ []) (6 ∷ []) (7 ∷ []) [] [] (8 ∷ [])
      (entry_with (crc32 (5 ∷ 6 ∷ [])) damaged ++ (8 ∷ [])) refl refl (omega arith, tt)
      (omega arith, tt) (omega arith, tt) tt refl (omega arith)
      (λ e. let n = ap (λ l. get_or l 0 0) e in omega (arith, n)) tt (omega arith) refl
