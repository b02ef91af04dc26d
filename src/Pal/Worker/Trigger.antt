-- ===== src/Pal/Worker/Trigger.antt =====
-- `get_next_trigger_us` of DC_PAL/Worker.cpp, and the timeout that `run` computes from it.
use libdronecan.Prelude.{
  ℕ, zero, suc, ◌+◌, ◌-◌, ◌^◌, ◌≤◌, ◌<◌, ◌≡◌, ◌≢◌, ◌⊎◌, inl, inr, refl, sym, ◌∙◌, ap, List, [], ◌∷◌,
  length, arith, map, lt→ltb, le→not-ltb, dec_lt,
}
use libdronecan.Pal.Links.{Ptr, returns, Chain}
use libdronecan.Pal.Worker.{
  Kind, periodic, event, Objects, links_of, Worker, earlier, trigger_walk, get_next_trigger_us,
  wait_timeout_us,
}
use libdronecan.Pal.Worker.Register.{IsWorker}

abbrev pub kinds_of : Objects → List Ptr → List Kind
kinds_of objs xs = map (λ a. (objs a).kind) xs

-- Every periodic object has a trigger time other than 0.
abbrev pub Armed : List Kind → Type 0
Armed [] = Unit
Armed (event m any ∷ ks) = Armed ks
Armed (periodic p t ∷ ks) = (t ≢ 0) × Armed ks

-- No periodic object is due before `r`.
abbrev pub NotBefore : ℕ → List Kind → Type 0
NotBefore r [] = Unit
NotBefore r (event m any ∷ ks) = NotBefore r ks
NotBefore r (periodic p t ∷ ks) = (r ≤ t) × NotBefore r ks

-- Some periodic object is due at `r`.
abbrev pub DueAt : ℕ → List Kind → Type 0
DueAt r [] = ⊥
DueAt r (event m any ∷ ks) = DueAt r ks
DueAt r (periodic p t ∷ ks) = (r ≡ t) ⊎ DueAt r ks

abbrev pub NoPeriodic : List Kind → Type 0
NoPeriodic [] = Unit
NoPeriodic (event m any ∷ ks) = NoPeriodic ks
NoPeriodic (periodic p t ∷ ks) = ⊥

abbrev fold_earlier : ℕ → List Kind → ℕ
fold_earlier acc [] = acc
fold_earlier acc (k ∷ ks) = fold_earlier (earlier acc k) ks

trigger_walk-fold :
    (k : ℕ) (objs : Objects) (p acc : ℕ) (xs : List Ptr)
    → Chain (links_of objs) p xs
    → length xs < k
    → trigger_walk k objs p acc ≡ returns (fold_earlier acc (kinds_of objs xs))
unfolding trigger_walk
trigger_walk-fold zero objs p acc xs c fuel = absurd (omega arith)
trigger_walk-fold (suc k) objs p acc [] c fuel = ground arith
trigger_walk-fold (suc k) objs p acc (x ∷ xs) c fuel =
    ground (arith, trigger_walk-fold k objs (objs x).next (earlier acc (objs x).kind) xs c.2)

-- The search ends, whatever the trigger times.
pub get_next_trigger_us-returns :
    (fuel : ℕ) (w : Worker) (xs : List Ptr)
    → Chain (links_of w.objs) w.head xs
    → length xs < fuel
    → (r : ℕ) × (get_next_trigger_us fuel w ≡ returns r)
unfolding get_next_trigger_us
get_next_trigger_us-returns fuel w xs c enough =
    (fold_earlier 0 (kinds_of w.objs xs), trigger_walk-fold fuel w.objs w.head 0 xs c enough)

-- What the fold has found from a time `acc` that it has met already.
fold_earlier_met :
    (acc r : ℕ) (ks : List Kind)
    → fold_earlier acc ks ≡ r
    → acc ≢ 0
    → Armed ks
    → (r ≤ acc) × NotBefore r ks × ((r ≡ acc) ⊎ DueAt r ks)
fold_earlier_met acc r [] e h a = (omega arith, tt, inl (sym e))
fold_earlier_met acc r (event m any ∷ ks) e h a =
    fold_earlier_met acc r ks (unfold earlier in e) h a
fold_earlier_met acc r (periodic p t ∷ ks) e h a = elim (dec_lt t acc) [
  | yes lt ↦
      let next : earlier acc (periodic p t) ≡ t = unfold earlier in ground arith in
      let (le, before, due) =
        fold_earlier_met t r ks (ap (λ n. fold_earlier n ks) (sym next) ∙ e) a.0 a.1 in
      (omega arith, (le, before), inr due)
  | no ge ↦
      let next : earlier acc (periodic p t) ≡ acc = unfold earlier in ground arith in
      let (le, before, due) =
        fold_earlier_met acc r ks (ap (λ n. fold_earlier n ks) (sym next) ∙ e) h a.1 in
      (le, (omega arith, before), elim due [ inl q ↦ inl q | inr d ↦ inr (inr d) ])
]

fold_earlier_lem :
    (r : ℕ) (ks : List Kind)
    → fold_earlier 0 ks ≡ r
    → Armed ks
    → NotBefore r ks × ((NoPeriodic ks × (r ≡ 0)) ⊎ DueAt r ks)
unfolding earlier
fold_earlier_lem r [] e a = (tt, inl (tt, sym e))
fold_earlier_lem r (event m any ∷ ks) e a = fold_earlier_lem r ks e a
fold_earlier_lem r (periodic p t ∷ ks) e a =
    let (le, before, due) = fold_earlier_met t r ks e a.0 a.1 in ((le, before), inr due)

-- With more rounds than objects, `get_next_trigger_us` returns a time that is not after the
-- trigger time of any periodic object, and that is the trigger time of one of them, or 0 if the
-- worker has none. The trigger times are other than 0.
pub get_next_trigger_us-earliest :
    (fuel : ℕ) (w : Worker) (xs : List Ptr)
    → IsWorker w xs
    → Armed (kinds_of w.objs xs)
    → length xs < fuel
    → (r : ℕ) × (get_next_trigger_us fuel w ≡ returns r)
      × NotBefore r (kinds_of w.objs xs)
      × ((NoPeriodic (kinds_of w.objs xs) × (r ≡ 0)) ⊎ DueAt r (kinds_of w.objs xs))
unfolding get_next_trigger_us
get_next_trigger_us-earliest fuel w xs is a enough =
    let (before, due) =
      fold_earlier_lem (fold_earlier 0 (kinds_of w.objs xs)) (kinds_of w.objs xs) refl a in
    (
      fold_earlier 0 (kinds_of w.objs xs),
      trigger_walk-fold fuel w.objs w.head 0 xs is.chain enough,
      before,
      due,
    )

-- A trigger time that is not past and less than 2^32 us away ends the wait at that time; one
-- that is past, however little, gives the timeout -1 as a `uint32_t`.
pub wait_timeout_us_cases :
    (next_trigger_us curr_time_us : ℕ)
    → next_trigger_us < curr_time_us + 2 ^ 32
    → ((curr_time_us ≤ next_trigger_us)
        × (curr_time_us + wait_timeout_us next_trigger_us curr_time_us ≡ next_trigger_us))
      ⊎ ((next_trigger_us < curr_time_us)
          × (wait_timeout_us next_trigger_us curr_time_us ≡ 2 ^ 32 - 1))
unfolding wait_timeout_us
wait_timeout_us_cases n c h = elim (dec_lt n c) [
  | yes lt ↦ inr (lt, rw (lt→ltb n c lt))
  | no ge ↦ inl (omega arith, rw (le→not-ltb n c (omega arith)) (omega arith))
]
