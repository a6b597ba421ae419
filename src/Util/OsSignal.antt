-- ===== src/Util/OsSignal.antt =====
-- src/ioproxy/os/SignalHandler.hpp and SignalHandler.win32.cpp: signals of the operating system.
use ioproxy.Base.{ℕ, ◌≡◌, ◌≢◌, Bool, true, false, Option, none, some, arith, ◌==◌, if◌then◌else◌}

pub data OsSignal : Type 0 where
  unhandled noop int term close reload : OsSignal

-- The constants of the Windows headers.
pub record Native : Type 0 where
  pub ctrl_c_event : ℕ
  pub ctrl_break_event : ℕ
  pub ctrl_close_event : ℕ

module _ (native : Native) where
  unfoldable pub native2enum : ℕ → OsSignal
  native2enum n =
      if n == native.ctrl_c_event
      then int
      else if n == native.ctrl_break_event
      then term
      else if n == native.ctrl_close_event
      then close
      else unhandled

  unfoldable pub signal2enum : OsSignal → ℕ
  signal2enum int = native.ctrl_c_event
  signal2enum term = native.ctrl_break_event
  signal2enum close = native.ctrl_close_event
  signal2enum _ = 0

  -- `g_signalHandler` is the handler's `handleSignal`, over its state `H`, or null.
  unfoldable pub signal_handler_func :
      {H : Type 0} → Option (OsSignal → H → Bool × H) → ℕ → H → Bool × H
  unfolding native2enum
  signal_handler_func none n h = (false, h)
  signal_handler_func (some handle_signal) n h = handle_signal (native2enum n) h

  -- Which signals have a number of their own.
  abbrev pub is_native : OsSignal → Bool
  is_native int = true
  is_native term = true
  is_native close = true
  is_native _ = false

  -- With three different numbers, the signals that have one come back from it, and every other signal
  -- comes back as what 0 stands for; and each number comes back, or is 0 if it stands for no signal.
  native2enum-signal2enum :
      (s : OsSignal) (n : ℕ)
      → native.ctrl_c_event ≢ native.ctrl_break_event
      → native.ctrl_c_event ≢ native.ctrl_close_event
      → native.ctrl_break_event ≢ native.ctrl_close_event
      → (native2enum (signal2enum s) ≡ (if is_native s then s else native2enum 0))
        × (signal2enum (native2enum n) ≡ (if is_native (native2enum n) then n else 0))
  unfolding native2enum signal2enum
  native2enum-signal2enum int n a b c = ground arith
  native2enum-signal2enum term n a b c = ground arith
  native2enum-signal2enum close n a b c = ground arith
  native2enum-signal2enum unhandled n a b c = ground arith
  native2enum-signal2enum noop n a b c = ground arith
  native2enum-signal2enum reload n a b c = ground arith
