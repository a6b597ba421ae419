-- ===== src/Relay/Reports.antt =====
-- src/ioproxy/Handler.cpp and Engine.cpp: a delivery to an IO that emits errors at most while it is written to.
use ioproxy.Base.{
  ℕ, zero, suc, String, ◌≡◌, ◌≢◌, refl, sym, ap, ◌∙◌, inl, inr, some, List, [], ◌∷◌, get_elem?,
  arith, Bool-cases, Option-cases, if◌then◌else◌,
}
use ioproxy.Io.{DataPack, Signal, Io}
use ioproxy.Handler.{
  Handler, State, state_eq, count_written, times, on_error_occured, set_state, set_error_message,
}
use ioproxy.Handler.Status.{on_status, times-on_status}
use ioproxy.Engine.Positions.{at-at, at-same, at-id, at-none}
use ioproxy.Engine.Signals.{Link, Emit, at, write_data, receive, receive_all, emit}

-- Signals that are errors, all of them.
abbrev pub OnlyErrors : List Signal → Type 0
OnlyErrors [] = Unit
OnlyErrors (Signal.error_occured m ∷ signals) = OnlyErrors signals
OnlyErrors (Signal.started ∷ signals) = ⊥
OnlyErrors (Signal.startup_error_occured m ∷ signals) = ⊥
OnlyErrors (Signal.new_data p ∷ signals) = ⊥

-- An IO that emits errors at most while it is written to.
abbrev pub IsTerse : {S : Type 0} → Io S → Type 0
IsTerse {S} io = (p : DataPack) (s : S) → OnlyErrors (io.write_data p s).1

module _ {S : Type 0} where
  -- The slots of a handler for status signals of its IO.
  unfoldable pub absorb : List Signal → Handler S → Handler S
  absorb [] h = h
  absorb (x ∷ xs) h = absorb xs (times h.status_slots (on_status x) h)

  -- What a status signal leaves alone, and that it leaves a failed handler failed.
  pub record Spares (g h : Handler S) : Type 0 where
    pub io : h.io ≡ g.io
    pub status_slots : h.status_slots ≡ g.status_slots
    pub data_slots : h.data_slots ≡ g.data_slots
    pub bytes_read : h.bytes_read ≡ g.bytes_read
    pub failed : g.state ≡ State.failed → h.state ≡ State.failed

  Spares-refl : (h : Handler S) → Spares h h
  Spares-refl h = record {
    io = refl;
    status_slots = refl;
    data_slots = refl;
    bytes_read = refl;
    failed = λ e. e;
  }

  Spares-trans : (f g h : Handler S) → Spares f g → Spares g h → Spares f h
  Spares-trans f g h a b = record {
    io = b.io ∙ a.io;
    status_slots = b.status_slots ∙ a.status_slots;
    data_slots = b.data_slots ∙ a.data_slots;
    bytes_read = b.bytes_read ∙ a.bytes_read;
    failed = λ e. b.failed (a.failed e);
  }

  on_error_occured-Spares : (m : String) (h : Handler S) → Spares h (on_error_occured m h)
  unfolding on_error_occured set_state set_error_message
  on_error_occured-Spares m h = ground arith

  times-Spares :
      (n : ℕ) (m : String) (h : Handler S)
      → Spares h (times n (on_status (Signal.error_occured m)) h)
  unfolding times on_status
  times-Spares zero m h = Spares-refl h
  times-Spares (suc n) m h =
      Spares-trans h (on_error_occured m h) _ (on_error_occured-Spares m h)
        (times-Spares n m (on_error_occured m h))

  pub absorb-Spares :
      (signals : List Signal) (h : Handler S) → OnlyErrors signals → Spares h (absorb signals h)
  unfolding absorb
  absorb-Spares [] h only = Spares-refl h
  absorb-Spares (Signal.error_occured m ∷ signals) h only =
      Spares-trans h _ _ (times-Spares h.status_slots m h) (absorb-Spares signals _ only)
  absorb-Spares (Signal.started ∷ signals) h only = elim only [ ]
  absorb-Spares (Signal.startup_error_occured m ∷ signals) h only = elim only [ ]
  absorb-Spares (Signal.new_data p ∷ signals) h only = elim only [ ]

  -- An error leaves a handler failed that is connected to its IO.
  pub absorb-failed :
      (signals : List Signal) (h : Handler S) (k : ℕ)
      → OnlyErrors signals
      → signals ≢ []
      → h.status_slots ≡ suc k
      → (absorb signals h).state ≡ State.failed
  unfolding absorb
  absorb-failed [] h k only some_error e = absurd (some_error refl)
  absorb-failed (Signal.error_occured m ∷ signals) h k only some_error e =
      (absorb-Spares signals _ only).failed (
        ap (λ (n : ℕ). (times n (on_status (Signal.error_occured m)) h).state) e
        ∙ (times-on_status k (Signal.error_occured m) h).1.0)
  absorb-failed (Signal.started ∷ signals) h k only some_error e = elim only [ ]
  absorb-failed (Signal.startup_error_occured m ∷ signals) h k only some_error e = elim only [ ]
  absorb-failed (Signal.new_data p ∷ signals) h k only some_error e = elim only [ ]

module _ {S : Type 0} (io : Io S) where
  -- One delivery: a handler that is started passes the pack to its IO, takes the errors that this emits, and
  -- counts the bytes; any other handler drops the pack.
  unfoldable pub deliver : DataPack → Handler S → Handler S
  deliver p h =
      let (s, signals) = io.write_data p h.io in
      if state_eq h.state State.started
      then count_written p (absorb signals (record h { io = s }))
      else h

  -- An error of an IO changes its handler alone.
  pub receive-absorb :
      (deeper : Emit S) (links : List Link) (i : ℕ) (m : String) (hs : List (Handler S))
      → receive io deeper links i (Signal.error_occured m) hs
        ≡ some (at i (λ h. times h.status_slots (on_status (Signal.error_occured m)) h) hs)
  unfolding receive
  receive-absorb deeper links i m hs = elim (Option-cases (get_elem? hs i)) [
    | inl e ↦ rw (e, receive) (ap some (sym (at-none i _ hs e)))
    | inr (h, e) ↦
        rw (e, receive)
          (ap some (
            at-same i (times h.status_slots (on_status (Signal.error_occured m)))
              (λ g. times g.status_slots (on_status (Signal.error_occured m)) g) hs h e refl))
  ]

  pub receive_all-absorb :
      (deeper : Emit S) (links : List Link) (i : ℕ) (signals : List Signal) (hs : List (Handler S))
      → OnlyErrors signals
      → receive_all io deeper links i signals hs ≡ some (at i (absorb signals) hs)
  unfolding receive_all absorb
  receive_all-absorb deeper links i [] hs only = ap some (sym (at-id i hs))
  receive_all-absorb deeper links i (Signal.error_occured m ∷ signals) hs only =
      rw (receive-absorb deeper links i m hs, receive_all)
        (receive_all-absorb deeper links i signals _ only ∙ ap some (at-at i (absorb signals) _ hs))
  receive_all-absorb deeper links i (Signal.started ∷ signals) hs only = elim only [ ]
  receive_all-absorb deeper links i (Signal.startup_error_occured m ∷ signals) hs only =
      elim only [ ]
  receive_all-absorb deeper links i (Signal.new_data p ∷ signals) hs only = elim only [ ]

  -- A call of `writeData` is one delivery to the handler at the position.
  pub write_data-deliver :
      (terse : IsTerse io) (links : List Link) (fuel d : ℕ) (p : DataPack) (hs : List (Handler S))
      → write_data io (emit io (suc fuel) links) d p hs ≡ some (at d (deliver p) hs)
  unfolding write_data emit deliver
  write_data-deliver terse links fuel d p hs = elim (Option-cases (get_elem? hs d)) [
    | inl e ↦ rw (e, write_data) (ap some (sym (at-none d (deliver p) hs e)))
    | inr (h, e) ↦ elim (Bool-cases (state_eq h.state State.started)) [
      | inr idle ↦
          rw (e, write_data)
            (rw idle (ap some (sym (at-id d hs) ∙ at-same d (λ g. g) (deliver p) hs h e (rw idle))))
      | inl runs ↦
          let (s, signals) = io.write_data p h.io in
          rw (e, write_data)
            (rw
              (
                runs,
                receive_all-absorb (emit io fuel links) links d signals
                    (at d (λ g. record g { io = s }) hs) (terse p h.io),
              )
              (ap some (
                ap (at d (count_written p)) (at-at d (absorb signals) _ hs)
                ∙ (at-at d (count_written p) _ hs ∙ at-same d _ (deliver p) hs h e (rw runs)))))
    ]
  ]
