-- ===== src/Engine/Kept.antt =====
-- src/ioproxy/Handler.cpp: properties of handlers that the slots keep.
use ioproxy.Base.{ℕ, zero, suc, ◌≡◌, refl, ap, ◌∙◌, List, [], ◌∷◌, map, length, All, arith, eq_iff}
use ioproxy.Io.{DataPack, Signal}
use ioproxy.Handler.{
  Handler, stopped, started, count_read, count_written, times, on_started, on_startup_error_occured,
  on_error_occured,
}
use ioproxy.Handler.Status.{on_status}
use ioproxy.Engine.Signals.{at}
use ioproxy.Engine.Rule.{IsKept}

pub length-at {ℓ} : {A : Type ℓ} (i : ℕ) (f : A → A) (xs : List A) → length (at i f xs) ≡ length xs
length-at i f [] = refl
length-at zero f (x ∷ xs) = refl
length-at (suc i) f (x ∷ xs) = ap suc (length-at i f xs)

module _ {S : Type 0} where
  pub All-at :
      (Q : Handler S → Type 0) (i : ℕ) (f : Handler S → Handler S) (hs : List (Handler S))
      → ((h : Handler S) → Q h → Q (f h))
      → All Q hs
      → All Q (at i f hs)
  All-at Q i f [] q a = tt
  All-at Q zero f (h ∷ hs) q a = (q h a.0, a.1)
  All-at Q (suc i) f (h ∷ hs) q a = (a.0, All-at Q i f hs q a.1)

  pub map-at {ℓ} :
      {B : Type ℓ} (g : Handler S → B) (i : ℕ) (f : Handler S → Handler S) (hs : List (Handler S))
      → ((h : Handler S) → g (f h) ≡ g h)
      → map g (at i f hs) ≡ map g hs
  map-at g i f [] q = refl
  map-at g zero f (h ∷ hs) q = ap (λ b. b ∷ map g hs) (q h)
  map-at g (suc i) f (h ∷ hs) q = ap (◌∷◌ (g h)) (map-at g i f hs q)

  -- Each change to one handler keeps `Q`.
  pub record KeepsEach (Q : Handler S → Type 0) : Type 0 where
    pub io_kept : (s : S) (h : Handler S) → Q h → Q (record h { io = s })
    pub written_kept : (p : DataPack) (h : Handler S) → Q h → Q (count_written p h)
    pub read_kept : (p : DataPack) (h : Handler S) → Q h → Q (count_read p h)
    pub status_kept : (x : Signal) (h : Handler S) → Q h → Q (on_status x h)

  times-Q :
      (Q : Handler S → Type 0) (n : ℕ) (f : Handler S → Handler S) (h : Handler S)
      → ((g : Handler S) → Q g → Q (f g))
      → Q h
      → Q (times n f h)
  unfolding times
  times-Q Q zero f h k q = q
  times-Q Q (suc n) f h k q = times-Q Q n f (f h) k (k h q)

  pub All-IsKept : (Q : Handler S → Type 0) → KeepsEach Q → IsKept (All Q)
  All-IsKept Q k = record {
    by_io = λ d s hs. All-at Q d _ hs (k.io_kept s);
    by_written = λ d p hs. All-at Q d _ hs (k.written_kept p);
    by_read = λ d p hs. All-at Q d _ hs (k.read_kept p);
    by_status = λ d n x hs. All-at Q d _ hs (λ h. times-Q Q n (on_status x) h (k.status_kept x));
  }

  -- A handler that has not failed shows no error.
  pub record IsCoherent (h : Handler S) : Type 0 where
    pub when_started : h.state ≡ started → h.error_message ≡ ""
    pub when_stopped : h.state ≡ stopped → h.error_message ≡ ""

  on_status-IsCoherent : (x : Signal) (h : Handler S) → IsCoherent h → IsCoherent (on_status x h)
  unfolding on_status on_started on_startup_error_occured on_error_occured
  on_status-IsCoherent Signal.started h c = ground (arith, eq_iff h.error_message "")
  on_status-IsCoherent (Signal.startup_error_occured m) h c =
      ground (arith, eq_iff h.error_message m)
  on_status-IsCoherent (Signal.error_occured m) h c = ground (arith, eq_iff h.error_message m)
  on_status-IsCoherent (Signal.new_data p) h c = c

  pub IsCoherent-KeepsEach : KeepsEach IsCoherent
  unfolding count_read count_written
  IsCoherent-KeepsEach = record {
    io_kept = λ s h c. record { when_started = c.when_started; when_stopped = c.when_stopped };
    written_kept = λ p h c. record { when_started = c.when_started; when_stopped = c.when_stopped };
    read_kept = λ p h c. record { when_started = c.when_started; when_stopped = c.when_stopped };
    status_kept = on_status-IsCoherent;
  }

  on_status-slots : (x : Signal) (h : Handler S) → (on_status x h).data_slots ≡ h.data_slots
  unfolding on_status on_started on_startup_error_occured on_error_occured
  on_status-slots Signal.started h = ground arith
  on_status-slots (Signal.startup_error_occured m) h = ground arith
  on_status-slots (Signal.error_occured m) h = ground arith
  on_status-slots (Signal.new_data p) h = refl

  times-slots :
      (n : ℕ) (x : Signal) (h : Handler S) → (times n (on_status x) h).data_slots ≡ h.data_slots
  unfolding times
  times-slots zero x h = refl
  times-slots (suc n) x h = times-slots n x (on_status x h) ∙ on_status-slots x h

  -- The connections of `newData`, of all handlers.
  abbrev pub slots : List (Handler S) → List ℕ
  slots = map λ h. h.data_slots

  pub slots-IsKept : (c : List ℕ) → IsKept (λ (hs : List (Handler S)). slots hs ≡ c)
  unfolding count_read count_written
  slots-IsKept c = record {
    by_io = λ d s hs e. map-at (λ h. h.data_slots) d _ hs (λ h. refl) ∙ e;
    by_written = λ d p hs e. map-at (λ h. h.data_slots) d _ hs (λ h. refl) ∙ e;
    by_read = λ d p hs e. map-at (λ h. h.data_slots) d _ hs (λ h. refl) ∙ e;
    by_status = λ d n x hs e. map-at (λ h. h.data_slots) d _ hs (times-slots n x) ∙ e;
  }

  pub count_kept : (n : ℕ) → IsKept (λ (hs : List (Handler S)). length hs ≡ n)
  count_kept n = record {
    by_io = λ d s hs e. length-at d _ hs ∙ e;
    by_written = λ d p hs e. length-at d _ hs ∙ e;
    by_read = λ d p hs e. length-at d _ hs ∙ e;
    by_status = λ d m x hs e. length-at d _ hs ∙ e;
  }
