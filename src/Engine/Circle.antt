-- ===== src/Engine/Circle.antt =====
-- src/ioproxy/Engine.cpp and src/echo-plugin/EchoIO.cpp: connections in a circle.
use mathlib.Core.Path.{subst}
use ioproxy.Base.{
  ℕ, zero, suc, ◌≡◌, refl, sym, ◌∙◌, Option, none, some, List, [], ◌∷◌, get_elem?, arith, ◌==◌,
  if◌then◌else◌, Bool-cases, inl, inr,
}
use ioproxy.Io.{DataPack, Signal, Io}
use ioproxy.Handler.{Handler, State, count_read}
use ioproxy.Engine.Signals.{
  Link, Emit, at, write_data, forward, on_new_data, receive, receive_all, emit,
}
use ioproxy.Engine.Positions.{get_elem?-at}

-- An IO that emits what is written to it, as the echo plugin does.
abbrev pub IsEcho : {S : Type 0} → Io S → Type 0
IsEcho {S} io = (p : DataPack) (s : S) → (io.write_data p s).1 ≡ Signal.new_data p ∷ []

-- Where the oldest connection from a position leads.
abbrev pub first_target : List Link → ℕ → Option ℕ
first_target [] i = none
first_target ((s, d) ∷ links) i = if s == i then some d else first_target links i

module _ {S : Type 0} where
  -- A handler that is started and gets the data of its IO.
  pub record IsRunning (h : Handler S) : Type 0 where
    pub runs : h.state ≡ State.started
    pub hears : (n : ℕ) × (h.data_slots ≡ suc n)

  -- Each position of a set has a running handler.
  abbrev pub AllRunning : (ℕ → Type 0) → List (Handler S) → Type 0
  AllRunning P hs = (i : ℕ) → P i → (h : Handler S) × (get_elem? hs i ≡ some h) × IsRunning h

  at-AllRunning :
      (P : ℕ → Type 0) (j : ℕ) (f : Handler S → Handler S) (hs : List (Handler S))
      → ((h : Handler S) → IsRunning h → IsRunning (f h))
      → AllRunning P hs
      → AllRunning P (at j f hs)
  at-AllRunning P j f hs keep all i p =
      let (h, e, r) = all i p in
      elim (Bool-cases (j == i)) [
        | inl same ↦ (f h, get_elem?-at j i f hs ∙ rw (same, e) refl, keep h r)
        | inr other ↦ (h, get_elem?-at j i f hs ∙ rw (other, e) refl, r)
      ]

module _ {S : Type 0} (io : Io S) (echo : IsEcho io) (P : ℕ → Type 0) where
  module _ (deeper : Emit S) (p : DataPack)
      (endless : (i : ℕ) (hs : List (Handler S))
        → P i
        → AllRunning P hs
        → deeper i (Signal.new_data p ∷ []) hs ≡ none) where
    write_data-endless :
        (d : ℕ) (hs : List (Handler S)) → P d → AllRunning P hs → write_data io deeper d p hs ≡ none
    unfolding write_data
    write_data-endless d hs q all =
        let (h, e, r) = all d q in
        let after =
          at-AllRunning P d (λ g. record g { io = (io.write_data p h.io).0 }) hs
            (λ g k. record { runs = k.runs; hears = k.hears }) all in
        rw (e, write_data) (rw (r.runs, echo p h.io, endless d _ q after) refl)

    forward-endless :
        (links : List Link) (i d : ℕ) (hs : List (Handler S))
        → first_target links i ≡ some d
        → P d
        → AllRunning P hs
        → forward io deeper links i p hs ≡ none
    unfolding forward
    forward-endless [] i d hs e q all = cc
    forward-endless ((s, t) ∷ links) i d hs e q all = elim (Bool-cases (s == i)) [
      | inl same ↦
          (let there : t ≡ d = ground (arith, rw (same, first_target) at e) in
            rw (same, forward)
              (rw (write_data-endless t hs (subst P (sym there) q) all, forward) refl))
      | inr other ↦
          rw (other, forward) (forward-endless links i d hs (rw (other, first_target) at e) q all)
    ]

  -- When IOs emit what is written to them, and the oldest connection from each position of a set, where
  -- all handlers are started and get the data of their IOs, leads to a position of the set, then data that
  -- is emitted at a position of the set is handled deeper than any call depth: the code does not return.
  pub emit-circle :
      (links : List Link) (target : ℕ → ℕ)
      → ((i : ℕ) → P i → (first_target links i ≡ some (target i)) × P (target i))
      → (fuel i : ℕ) (p : DataPack) (hs : List (Handler S)) → P i
      → AllRunning P hs
      → emit io fuel links i (Signal.new_data p ∷ []) hs ≡ none
  unfolding emit receive_all receive on_new_data count_read
  emit-circle links target leads zero i p hs q all = refl
  emit-circle links target leads (suc fuel) i p hs q all =
      let (h, e, r) = all i q in
      let (n, one) = r.hears in
      let (t, u) = leads i q in
      let counted =
        at-AllRunning P i (count_read p) hs (λ g k. record { runs = k.runs; hears = k.hears })
          all in
      rw (e, receive_all, receive)
        (rw (one, on_new_data)
          (rw
            (
              forward-endless (emit io fuel links) p
                  (λ j gs v a. emit-circle links target leads fuel j p gs v a) links i (target i)
                  (at i (count_read p) hs) t u counted,
              on_new_data,
            )
            refl))
