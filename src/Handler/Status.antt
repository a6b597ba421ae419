-- ===== src/Handler/Status.antt =====
-- src/ioproxy/Handler.cpp: the state and the error message of a handler.
use ioproxy.Base.{ℕ, zero, suc, ◌≡◌, refl, arith, eq_iff}
use ioproxy.Handler.{
  Handler, started, failed, on_started, on_startup_error_occured, on_error_occured, times,
}
use ioproxy.Io.{Signal}

module _ {S : Type 0} where
  -- What the three status slots do, by the signal.
  unfoldable pub on_status : Signal → Handler S → Handler S
  on_status Signal.started h = on_started h
  on_status (Signal.startup_error_occured m) h = on_startup_error_occured m h
  on_status (Signal.error_occured m) h = on_error_occured m h
  on_status (Signal.new_data p) h = h

  -- The state and message that a status signal stands for.
  abbrev pub Shows : Signal → Handler S → Type 0
  Shows Signal.started h = (h.state ≡ started) × (h.error_message ≡ "")
  Shows (Signal.startup_error_occured m) h = (h.state ≡ failed) × (h.error_message ≡ m)
  Shows (Signal.error_occured m) h = (h.state ≡ failed) × (h.error_message ≡ m)
  Shows (Signal.new_data p) h = Unit

  pub on_status-Shows : (x : Signal) (h : Handler S) → Shows x (on_status x h)
  unfolding on_status on_started on_startup_error_occured on_error_occured
  on_status-Shows Signal.started h = ground (arith, eq_iff h.error_message "")
  on_status-Shows (Signal.startup_error_occured m) h = ground (arith, eq_iff h.error_message m)
  on_status-Shows (Signal.error_occured m) h = ground (arith, eq_iff h.error_message m)
  on_status-Shows (Signal.new_data p) h = tt

  pub on_status-io : (x : Signal) (h : Handler S) → (on_status x h).io ≡ h.io
  unfolding on_status on_started on_startup_error_occured on_error_occured
  on_status-io Signal.started h = ground arith
  on_status-io (Signal.startup_error_occured m) h = ground arith
  on_status-io (Signal.error_occured m) h = ground arith
  on_status-io (Signal.new_data p) h = refl

  -- A status signal that is shown already changes nothing, and notifies nobody.
  on_status_idem : (x : Signal) (h : Handler S) → Shows x h → on_status x h ≡ h
  unfolding on_status on_started on_startup_error_occured on_error_occured
  on_status_idem Signal.started h s = ground (arith, eq_iff h.error_message "")
  on_status_idem (Signal.startup_error_occured m) h s = ground (arith, eq_iff h.error_message m)
  on_status_idem (Signal.error_occured m) h s = ground (arith, eq_iff h.error_message m)
  on_status_idem (Signal.new_data p) h s = refl

  times-fixed : (n : ℕ) (f : Handler S → Handler S) (h : Handler S) → f h ≡ h → times n f h ≡ h
  unfolding times
  times-fixed zero f h e = refl
  times-fixed (suc n) f h e = rw e (times-fixed n f h e)

  -- With the signals connected more than once, by two calls of `start`, a status signal has the same
  -- effect as with one connection, the notices to others included; and the handler shows it.
  pub times-on_status :
      (n : ℕ) (x : Signal) (h : Handler S)
      → (times (suc n) (on_status x) h ≡ on_status x h) × Shows x (times (suc n) (on_status x) h)
  unfolding times
  times-on_status n x h =
      let e =
        times-fixed n (on_status x) (on_status x h) (on_status_idem x _ (on_status-Shows x h)) in
      (e, rw e (on_status-Shows x h))
