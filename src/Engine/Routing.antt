-- ===== src/Engine/Routing.antt =====
-- src/ioproxy/Handler.cpp and Engine.cpp: where the data of an IO goes.
pub mod Totals
pub mod Order
use mathlib.Core.Option
use ioproxy.Base.{
  ℕ, zero, suc, ◌+◌, ◌≡◌, refl, sym, ap, ◌∙◌, inl, inr, Option, none, some, List, [], ◌∷◌,
  get_elem?, arith, ◌==◌, if◌then◌else◌, Bool-cases, Option-cases,
}
use ioproxy.Io.{DataPack, count, Signal, Io}
use ioproxy.Handler.{Handler, State, state_eq, count_read, count_written}
use ioproxy.Engine.Positions.{at-at, at-same, at-id, at-none}
use ioproxy.Engine.Delivery.{delivered, receive-delivered}
use ioproxy.Engine.Signals.{
  Link, Emit, at, write_data, forward, on_new_data, receive, receive_all, emit,
}

-- An IO that emits nothing while it is written to.
abbrev pub IsSilent : {S : Type 0} → Io S → Type 0
IsSilent {S} io = (p : DataPack) (s : S) → (io.write_data p s).1 ≡ []

module _ {S : Type 0} (io : Io S) where
  -- One delivery: a handler that is started passes the pack to its IO, once, and counts its bytes;
  -- any other handler drops it.
  pub write_once : DataPack → Handler S → Handler S
  write_once p h =
      if state_eq h.state State.started
      then record h { io = (io.write_data p h.io).0; bytes_written = h.bytes_written + count p }
      else h

  module _ (silent : IsSilent io) (deeper : Emit S)
      (still : (d : ℕ) (hs : List (Handler S)) → deeper d [] hs ≡ some hs) where
    write_data-at :
        (d : ℕ) (p : DataPack) (hs : List (Handler S))
        → write_data io deeper d p hs ≡ some (at d (write_once p) hs)
    unfolding write_data write_once
    write_data-at d p hs = elim (Option-cases (get_elem? hs d)) [
      | inl e ↦ rw (e, write_data) (ap some (sym (at-none d (write_once p) hs e)))
      | inr (h, e) ↦ elim (Bool-cases (state_eq h.state State.started)) [
        | inr idle ↦
            rw (e, write_data)
              (rw idle
                (ap some (sym (at-id d hs) ∙ at-same d (λ g. g) (write_once p) hs h e (rw idle))))
        | inl runs ↦
            rw (e, write_data)
              (rw (runs, silent p h.io, still)
                (ap some
                  (at-at d (count_written p) _ hs ∙ at-same d _ (write_once p) hs h e (rw runs))))
      ]
    ]

    receive_all-delivered :
        (links : List Link) (i : ℕ) (p : DataPack) (hs : List (Handler S)) (h : Handler S)
        → get_elem? hs i ≡ some h
        → h.data_slots ≡ 1
        → receive_all io deeper links i (Signal.new_data p ∷ []) hs
          ≡ some (delivered write_once links i p (at i (count_read p) hs))
    unfolding receive_all
    receive_all-delivered links i p hs h e one =
        rw (receive-delivered write_once io deeper write_data-at links i p hs h e one, receive_all)

emit-delivered :
    {S : Type 0} (io : Io S) (links : List Link) (fuel i : ℕ) (p : DataPack) (hs : List (Handler S))
    (h : Handler S)
    → IsSilent io
    → get_elem? hs i ≡ some h
    → h.data_slots ≡ 1
    → emit io (suc fuel) links i (Signal.new_data p ∷ []) hs
      ≡ some (delivered (write_once io) links i p (at i (count_read p) hs))
unfolding emit receive_all
emit-delivered {S} io links fuel i p hs h silent e one =
    receive_all-delivered io silent (emit io fuel links) (still fuel) links i p hs h e one
  where
    still : (n : ℕ) (j : ℕ) (gs : List (Handler S)) → emit io n links j [] gs ≡ some gs
    still zero j gs = refl
    still (suc n) j gs = refl
