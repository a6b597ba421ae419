-- ===== src/Engine/Delivery.antt =====
-- src/ioproxy/Handler.cpp and Engine.cpp: the calls of writeData that one newData makes, where each of them
-- changes the handler that it is for, and no other.
use mathlib.Core.Option
use ioproxy.Base.{
  ℕ, suc, ◌≡◌, refl, ◌∙◌, inl, inr, Option, none, some, List, [], ◌∷◌, get_elem?, arith, ◌==◌,
  if◌then◌else◌, Bool-cases,
}
use ioproxy.Io.{DataPack, Signal, Io}
use ioproxy.Handler.{Handler, count_read, times}
use ioproxy.Engine.Signals.{Link, Emit, at, write_data, forward, on_new_data, receive}
use ioproxy.Engine.Positions.{get_elem?-at}

-- How many connections lead from one handler to another.
unfoldable pub links_to : List Link → ℕ → ℕ → ℕ
links_to [] i d = 0
links_to ((s, t) ∷ links) i d =
    let rest = links_to links i d in if (s == i) then (if t == d then suc rest else rest) else rest

-- `once` is what a delivery does to the handler that it is for.
module _ {S : Type 0} (once : DataPack → Handler S → Handler S) where
  -- One delivery for each connection from the handler, oldest first.
  unfoldable pub delivered : List Link → ℕ → DataPack → List (Handler S) → List (Handler S)
  delivered [] i p hs = hs
  delivered ((s, d) ∷ links) i p hs = delivered links i p (if s == i then at d (once p) hs else hs)

  pub get_elem?-delivered :
      (links : List Link) (i d : ℕ) (p : DataPack) (hs : List (Handler S))
      → get_elem? (delivered links i p hs) d
        ≡ Option.map (times (links_to links i d) (once p)) (get_elem? hs d)
  unfolding delivered links_to times
  get_elem?-delivered [] i d p hs = Option-map_id (get_elem? hs d)
    where
      Option-map_id : (o : Option (Handler S)) → o ≡ Option.map (λ h. h) o
      Option-map_id none = refl
      Option-map_id (some h) = refl
  get_elem?-delivered ((s, t) ∷ links) i d p hs =
      get_elem?-delivered links i d p _ ∙ ground (arith, get_elem?-at t d (once p) hs)

  module _ (io : Io S) (deeper : Emit S)
      (write_data-at : (d : ℕ) (p : DataPack) (hs : List (Handler S))
        → write_data io deeper d p hs ≡ some (at d (once p) hs)) where
    forward-delivered :
        (links : List Link) (i : ℕ) (p : DataPack) (hs : List (Handler S))
        → forward io deeper links i p hs ≡ some (delivered links i p hs)
    unfolding forward delivered
    forward-delivered [] i p hs = refl
    forward-delivered ((s, d) ∷ links) i p hs = elim (Bool-cases (s == i)) [
      | inr other ↦ rw (other, forward) (forward-delivered links i p hs)
      | inl same ↦
          rw (same, forward)
            (rw (write_data-at d p hs, forward) (forward-delivered links i p (at d (once p) hs)))
    ]

    pub receive-delivered :
        (links : List Link) (i : ℕ) (p : DataPack) (hs : List (Handler S)) (h : Handler S)
        → get_elem? hs i ≡ some h
        → h.data_slots ≡ 1
        → receive io deeper links i (Signal.new_data p) hs
          ≡ some (delivered links i p (at i (count_read p) hs))
    unfolding receive on_new_data
    receive-delivered links i p hs h e one =
        rw (e, receive)
          (rw (one, receive)
            (rw (forward-delivered links i p (at i (count_read p) hs), on_new_data)))
