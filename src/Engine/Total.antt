-- ===== src/Engine/Total.antt =====
-- src/ioproxy/Engine.cpp: the calls of an engine come to an end.
use ioproxy.Base.{
  ℕ, zero, suc, ◌+◌, ◌<◌, ◌≡◌, refl, inl, inr, String, true, false, Option, some, List, [], ◌∷◌,
  ◌++◌, length, get_elem?, Bool-cases, Option-cases,
}
use ioproxy.Io.{Io}
use ioproxy.Handler.{Handler, new_handler, connect_status, disconnect}
use ioproxy.Engine.{Engine, handler_start, handler_stop, each, start, stop, add_io}
use ioproxy.Engine.Signals.{Link, at}
use ioproxy.Engine.Ending.{Ends, Descends, emit-Ends}

module _ {S : Type 0} (io : Io S) (rank : ℕ → ℕ) (fuel : ℕ) (low : (i : ℕ) → rank i < fuel)
    (links : List Link) (down : Descends rank links) where
  handler_start-Ends : (i : ℕ) (hs : List (Handler S)) → Ends (handler_start io fuel links i hs)
  unfolding handler_start
  handler_start-Ends i hs = elim (Option-cases (get_elem? hs i)) [
    | inl e ↦ (hs, rw (e, handler_start))
    | inr (h, e) ↦
        let (gs, q) =
          emit-Ends io rank links fuel i (io.start h.io).1
            (at i (λ g. record (connect_status g) { io = (io.start h.io).0 }) hs) down (low i) in
        (gs, rw (e, handler_start) q)
  ]

  handler_stop-Ends : (i : ℕ) (hs : List (Handler S)) → Ends (handler_stop io fuel links i hs)
  unfolding handler_stop
  handler_stop-Ends i hs = elim (Option-cases (get_elem? hs i)) [
    | inl e ↦ (hs, rw (e, handler_stop))
    | inr (h, e) ↦
        let (gs, q) =
          emit-Ends io rank links fuel i (io.stop h.io).1
            (at i (λ g. record g { io = (io.stop h.io).0 }) hs) down (low i) in
        (at i disconnect gs, rw (e, handler_stop) (rw (q, handler_stop)))
  ]

each-Ends :
    {S : Type 0} (f : ℕ → List (Handler S) → Option (List (Handler S)))
    → ((i : ℕ) (hs : List (Handler S)) → Ends (f i hs))
    → (n i : ℕ) (hs : List (Handler S)) → Ends (each f n i hs)
unfolding each
each-Ends f t zero i hs = (hs, refl)
each-Ends f t (suc n) i hs =
    let (gs, q) = t i hs in let (fs, r) = each-Ends f t n (i + 1) gs in (fs, rw (q, each) r)

module _ {F S : Type 0} (io : Io S) (rank : ℕ → ℕ) (fuel : ℕ) where
  -- Without a circle of connections the three calls that run IOs come to an end, and `start` and
  -- `stop` leave the engine in the state that they stand for.
  pub calls-Ends :
      (e : Engine F S) (name : String) (s : S)
      → ((i : ℕ) → rank i < fuel)
      → Descends rank e.links
      → ((e' : Engine F S) × (start io fuel e ≡ some e') × (e'.started ≡ true))
        × ((e' : Engine F S) × (stop io fuel e ≡ some e') × (e'.started ≡ false))
        × Ends (add_io io fuel name s e)
  unfolding start stop add_io
  calls-Ends e name s low down = (starting, stopping, adding)
    where
      starting : (e' : Engine F S) × (start io fuel e ≡ some e') × (e'.started ≡ true)
      starting = elim (Bool-cases e.started) [
        | inl on ↦ (e, rw on, on)
        | inr off ↦
            let (hs, q) =
              each-Ends (handler_start io fuel e.links)
                (handler_start-Ends io rank fuel low e.links down) (length e.handlers) 0
                e.handlers in
            (record e { handlers = hs; started = true }, rw off (rw q), refl)
      ]

      stopping : (e' : Engine F S) × (stop io fuel e ≡ some e') × (e'.started ≡ false)
      stopping =
          let (hs, q) =
            each-Ends (handler_stop io fuel e.links)
              (handler_stop-Ends io rank fuel low e.links down) (length e.handlers) 0 e.handlers in
          (record e { handlers = hs; started = false }, rw q, refl)

      adding : Ends (add_io io fuel name s e)
      adding = elim (Bool-cases e.started) [
        | inr off ↦ (record e { handlers = e.handlers ++ (new_handler name s ∷ []) }, rw off)
        | inl on ↦
            let (hs, q) = handler_start-Ends io rank fuel low [] tt 0 (new_handler name s ∷ []) in
            (
              record e { handlers = e.handlers ++ hs; started = true },
              rw on (rw (q, add_io) (rw on)),
            )
      ]
