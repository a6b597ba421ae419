-- ===== src/Legacy/App/Startup.antt =====
-- legacy/App.hpp: how a start of all IOs ends.
use mathlib.Core.Path.{subst}
use ioproxy.Base.{
  ℕ, zero, suc, ◌+◌, ◌<◌, ◌≡◌, ◌⊎◌, refl, sym, ap, ◌∙◌, String, Bool, true, false, Bool-cases,
  if_false, List, [], ◌∷◌, ◌==◌, arith, inl, inr, if◌then◌else◌,
}
use ioproxy.Io.{DataPack, Signal}
use ioproxy.Legacy.App.{
  Ios, App, new_app, emit, stop_all, stop_each, on_entry_started, on_entry_startup_error_occured,
  receive, start_io, start_each, start_all, abort, all_started,
}

-- The signals of a start: once that it started, or once that it failed, among data and errors.
pub data Answers : Bool → List Signal → Type 0 where
  starts : Answers true (Signal.started ∷ [])
  fails : (m : String) → Answers false (Signal.startup_error_occured m ∷ [])
  after_data :
      {b : Bool} {signals : List Signal} (p : DataPack)
      → Answers b signals
      → Answers b (Signal.new_data p ∷ signals)
  after_error :
      {b : Bool} {signals : List Signal} (m : String)
      → Answers b signals
      → Answers b (Signal.error_occured m ∷ signals)

module _ {W : Type 0} (ios : Ios W) where
  receive-starts :
      {signals : List Signal} (s : App W)
      → Answers true signals
      → receive ios signals s ≡ on_entry_started ios s
  unfolding receive
  receive-starts s starts = refl
  receive-starts s (after_data p a) = receive-starts s a
  receive-starts s (after_error m a) = receive-starts s a

  receive-fails :
      {signals : List Signal} (s : App W)
      → Answers false signals
      → receive ios signals s ≡ emit abort (stop_all ios (record s { error = true }))
  unfolding receive on_entry_startup_error_occured
  receive-fails s (fails m) = refl
  receive-fails s (after_data p a) = receive-fails s a
  receive-fails s (after_error m a) = receive-fails s a

  -- The first so many IOs were started, and each start emitted that it started.
  pub data Started : ℕ → W → W → Type 0 where
    not_yet : {w : W} → Started 0 w w
    one_more :
        {i : ℕ} {w w1 : W}
        → Started i w w1
        → Answers true (ios.start i w1).1
        → Started (suc i) w (ios.start i w1).0

  -- The IOs from a position on were stopped, one after the other, up to the last.
  pub data Stopped : ℕ → W → W → Type 0 where
    all_done : {w : W} → Stopped ios.size w w
    next_stopped : {i : ℕ} {w w1 : W} → Stopped (suc i) (ios.stop i w) w1 → Stopped i w w1

  -- An application of which `i` handlers have started, and none failed.
  abbrev pub up : ℕ → W → App W
  up i w = record (new_app w) {
    ready_counter = i;
    statistic_timer = i == ios.size;
    emitted = if i == ios.size then all_started ∷ [] else [];
  }

  -- An application that was aborted after `j` handlers had started.
  abbrev pub down : ℕ → W → App W
  down j w = record (new_app w) { ready_counter = j; error = true; emitted = abort ∷ [] }

  stop_each-Stopped : (n i : ℕ) (w : W) → n + i ≡ ios.size → Stopped i w (stop_each ios n i w)
  unfolding stop_each
  stop_each-Stopped zero i w e =
      let f : i ≡ ios.size = omega (arith, e) in subst (λ k. Stopped k w w) (sym f) all_done
  stop_each-Stopped (suc n) i w e =
      next_stopped (stop_each-Stopped n (suc i) (ios.stop i w) (omega (arith, e)))

  less : (i : ℕ) → i < ios.size → (i == ios.size) ≡ false
  less i h = ground arith

  on_entry_started-up :
      (i : ℕ) (w : W) → (i == ios.size) ≡ false → on_entry_started ios (up i w) ≡ up (suc i) w
  unfolding on_entry_started
  on_entry_started-up i w e = elim (Bool-cases (suc i == ios.size)) [
    | inl f ↦ rw (e, f)
    | inr f ↦ rw (e, f)
  ]

  -- The handler at a position failed after all before it had started, and then all were stopped.
  abbrev pub FailsAt : ℕ → W → App W → Type 0
  FailsAt j w r =
      (w1 w2 : W) × Started j w w1
      × Answers false (ios.start j w1).1
      × Stopped 0 (ios.start j w1).0 w2
      × (r ≡ down j w2)

  -- What a start of one more handler gives.
  Outcome : ℕ → W → App W → Type 0
  Outcome i w r = ((w1 : W) × Started (suc i) w w1 × (r ≡ up (suc i) w1)) ⊎ FailsAt i w r

  start_io-Outcome :
      (i : ℕ) (w w1 : W)
      → (i == ios.size) ≡ false
      → Started i w w1
      → ((b : Bool) × Answers b (ios.start i w1).1)
      → Outcome i w (start_io ios i (up i w1))
  unfolding start_io stop_all Outcome
  start_io-Outcome i w w1 e so_far (true, a) =
      inl (_, one_more so_far a, receive-starts _ a ∙ on_entry_started-up i (ios.start i w1).0 e)
  start_io-Outcome i w w1 e so_far (false, a) = inr (
    w1,
    _,
    so_far,
    a,
    stop_each-Stopped ios.size 0 (ios.start i w1).0 (omega arith),
    receive-fails _ a ∙ rw e,
  )

  start_each-down : (n i j : ℕ) (w : W) → start_each ios n i (down j w) ≡ down j w
  unfolding start_each
  start_each-down zero i j w = refl
  start_each-down (suc n) i j w = refl

  -- All handlers started, or some did and then one failed.
  abbrev pub IsSettled : W → App W → Type 0
  IsSettled w r =
      ((w1 : W) × Started ios.size w w1
        × (r ≡ record (new_app w1) {
          ready_counter = ios.size;
          statistic_timer = true;
          emitted = all_started ∷ [];
        }))
      ⊎ ((j : ℕ) × (j < ios.size) × FailsAt j w r)

  up_all :
      (w : W)
      → up ios.size w ≡ record (new_app w) {
        ready_counter = ios.size;
        statistic_timer = true;
        emitted = all_started ∷ [];
      }
  up_all w = let e : (ios.size == ios.size) ≡ true = ground arith in rw e

  module _ (answers : (i : ℕ) (w : W) → (b : Bool) × Answers b (ios.start i w).1) where
    start_each-IsSettled :
        (n i : ℕ) (w w1 : W)
        → n + i ≡ ios.size
        → Started i w w1
        → IsSettled w (start_each ios n i (up i w1))
    unfolding start_each Outcome
    start_each-IsSettled zero i w w1 e so_far =
        let f : i ≡ ios.size = omega (arith, e) in
        inl (w1, subst (λ k. Started k w w1) f so_far, ap (λ k. up k w1) f ∙ up_all w1)
    start_each-IsSettled (suc n) i w w1 e so_far =
        go (start_io ios i (up i w1))
          (start_io-Outcome i w w1 (less i (omega (arith, e))) so_far (answers i w1))
          (λ w2 next. start_each-IsSettled n (suc i) w w2 (omega (arith, e)) next)
      where
        go :
            (r : App W)
            → Outcome i w r
            → ((w2 : W)
                → Started (suc i) w w2
                → IsSettled w (start_each ios n (suc i) (up (suc i) w2)))
            → IsSettled w (start_each ios n (suc i) r)
        go r (inl (w2, next, f)) rest =
            subst (λ t. IsSettled w (start_each ios n (suc i) t)) (sym f) (rest w2 next)
        go r (inr (w2, w3, before, failed, stopped, f)) rest = inr (
          i,
          omega (arith, e),
          (
            w2,
            w3,
            before,
            failed,
            stopped,
            ap (start_each ios n (suc i)) f ∙ start_each-down n (suc i) i w3,
          ),
        )

    -- If there is an IO, and every start of an IO emits that it started or that it failed, once, a start of all
    -- IOs of a new application ends in one of two ways. Either each was started in turn and emitted that it
    -- started, and the application emitted that all started, and its timer of the statistic is on; or the
    -- IOs before one were started, this one failed, then every IO was stopped, one after the other, and
    -- `abort` was emitted.
    pub start_all-IsSettled : (w : W) → 0 < ios.size → IsSettled w (start_all ios (new_app w))
    unfolding start_all
    start_all-IsSettled w h =
        let e = less 0 h in
        let f : (ios.size == 0) ≡ false = ground arith in
        let g : up 0 w ≡ new_app w = rw e in
        subst (IsSettled w) (ap (start_each ios ios.size 0) g ∙ sym (if_false _ _ f))
          (start_each-IsSettled ios.size 0 w w (omega arith) not_yet)
