-- ===== src/Engine/Lifecycle.antt =====
-- src/ioproxy/Engine.cpp: what every use of an engine keeps, by a step relation: the calls of the
-- application, and what the environment makes an IO emit between them.
use ioproxy.Base.{ℕ, zero, suc, ◌+◌, inl, inr, Option, some, List, get_elem?, Option-cases}
use ioproxy.Io.{Io}
use ioproxy.Handler.{Handler, connect_status, disconnect}
use ioproxy.Engine.{handler_start, handler_stop, each}
use ioproxy.Engine.Signals.{Link, at, emit}
use ioproxy.Engine.Rule.{IsKept, Gives, gives, chain, emit-Gives}

module _ {S : Type 0} (io : Io S) (P : List (Handler S) → Type 0) (k : IsKept P) (fuel : ℕ)
    (links : List Link) where
  pub each-Gives :
      (f : ℕ → List (Handler S) → Option (List (Handler S)))
      → ((i : ℕ) (hs : List (Handler S)) → P hs → Gives P (f i hs))
      → (n i : ℕ) (hs : List (Handler S)) → P hs
      → Gives P (each f n i hs)
  unfolding each
  each-Gives f q zero i hs h = gives P hs h
  each-Gives f q (suc n) i hs h =
      chain P (f i hs) (each f n (i + 1)) (q i hs h) (λ gs g. each-Gives f q n (i + 1) gs g)

  pub handler_start-Gives :
      ((i : ℕ) (s : S) (hs : List (Handler S))
        → P hs
        → P (at i (λ g. record (connect_status g) { io = s }) hs))
      → (i : ℕ) (hs : List (Handler S)) → P hs
      → Gives P (handler_start io fuel links i hs)
  unfolding handler_start
  handler_start-Gives c i hs h = elim (Option-cases (get_elem? hs i)) [
    | inl r ↦ rw (r, handler_start) (gives P hs h)
    | inr (g, r) ↦
        rw (r, handler_start)
          (λ hs'.
            emit-Gives io P k fuel links i (io.start g.io).1 _ hs' (c i (io.start g.io).0 hs h))
  ]

  pub handler_stop-Gives :
      ((i : ℕ) (hs : List (Handler S)) → P hs → P (at i disconnect hs))
      → (i : ℕ) (hs : List (Handler S)) → P hs
      → Gives P (handler_stop io fuel links i hs)
  unfolding handler_stop
  handler_stop-Gives c i hs h = elim (Option-cases (get_elem? hs i)) [
    | inl r ↦ rw (r, handler_stop) (gives P hs h)
    | inr (g, r) ↦
        rw (r, handler_stop)
          (chain P (emit io fuel links i (io.stop g.io).1 _) (λ gs. some (at i disconnect gs))
            (λ hs'.
              emit-Gives io P k fuel links i (io.stop g.io).1 _ hs'
                (k.by_io i (io.stop g.io).0 hs h))
            (λ gs q. gives P (at i disconnect gs) (c i gs q)))
  ]
