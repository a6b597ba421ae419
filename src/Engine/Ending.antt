-- ===== src/Engine/Ending.antt =====
-- src/ioproxy/Handler.cpp and Engine.cpp: when the forwarding of data comes to an end.
use ioproxy.Base.{
  ℕ, zero, suc, ◌<◌, ◌≡◌, refl, inl, inr, Option, some, List, [], ◌∷◌, get_elem?, All, arith, ◌==◌,
  ==_iff, Bool-cases, Option-cases,
}
use ioproxy.Io.{DataPack, Signal, Io}
use ioproxy.Handler.{Handler, State, state_eq, count_read, count_written, times}
use ioproxy.Handler.Status.{on_status}
use ioproxy.Engine.Signals.{
  Link, Emit, at, write_data, forward, on_new_data, receive, receive_all, emit,
}

-- The call comes to an end.
abbrev pub Ends {ℓ} : {A : Type ℓ} → Option A → Type ℓ
Ends {A} o = (a : A) × (o ≡ some a)

-- Each connection leads to a handler of lower rank: there is no way around in a circle.
abbrev pub Descends : (ℕ → ℕ) → List Link → Type 0
Descends rank links = All (λ l. rank l.1 < rank l.0) links

module _ {S : Type 0} (io : Io S) (rank : ℕ → ℕ) (n : ℕ) (deeper : Emit S) where
  abbrev EndsBelow : Type 0
  EndsBelow =
      (d : ℕ) (xs : List Signal) (hs : List (Handler S)) → rank d < n → Ends (deeper d xs hs)

  write_data-Ends :
      EndsBelow
      → (d : ℕ) (p : DataPack) (hs : List (Handler S)) → rank d < n
      → Ends (write_data io deeper d p hs)
  unfolding write_data
  write_data-Ends below d p hs l = elim (Option-cases (get_elem? hs d)) [
    | inl e ↦ (hs, rw (e, write_data))
    | inr (h, e) ↦ elim (Bool-cases (state_eq h.state State.started)) [
      | inr idle ↦ (hs, rw (e, write_data) (rw idle))
      | inl runs ↦
          let (s, xs) = io.write_data p h.io in
          let (hs', q) = below d xs (at d (λ g. record g { io = s }) hs) l in
          (at d (count_written p) hs', rw (e, write_data) (rw runs (rw (q, write_data))))
    ]
  ]

  forward-Ends :
      EndsBelow
      → (links : List Link) (i : ℕ) (p : DataPack) (hs : List (Handler S)) → Descends rank links
      → rank i < suc n
      → Ends (forward io deeper links i p hs)
  unfolding forward
  forward-Ends below [] i p hs h l = (hs, refl)
  forward-Ends below ((s, d) ∷ links) i p hs h l = elim (Bool-cases (s == i)) [
    | inr other ↦
        let (hs', q) = forward-Ends below links i p hs h.1 l in (hs', rw (other, forward) q)
    | inl same ↦
        let e : s ≡ i = (==_iff s i).0 same in
        let lower : rank d < rank i = rw e at (h.0) in
        let (hs', q) = write_data-Ends below d p hs (omega arith) in
        let (hs'', r) = forward-Ends below links i p hs' h.1 l in
        (hs'', rw (same, forward) (rw (q, forward) r))
  ]

  on_new_data-Ends :
      EndsBelow
      → (links : List Link) (k i : ℕ) (p : DataPack) (hs : List (Handler S)) → Descends rank links
      → rank i < suc n
      → Ends (on_new_data io deeper links k i p hs)
  unfolding on_new_data
  on_new_data-Ends below links zero i p hs h l = (hs, refl)
  on_new_data-Ends below links (suc k) i p hs h l =
      let (hs', q) = forward-Ends below links i p (at i (count_read p) hs) h l in
      let (hs'', r) = on_new_data-Ends below links k i p hs' h l in (hs'', rw (q, on_new_data) r)

  receive-Ends :
      EndsBelow
      → (links : List Link) (i : ℕ) (x : Signal) (hs : List (Handler S)) → Descends rank links
      → rank i < suc n
      → Ends (receive io deeper links i x hs)
  unfolding receive
  receive-Ends below links i x hs h l = elim (Option-cases (get_elem? hs i)) [
    | inl e ↦ (hs, rw (e, receive))
    | inr (g, e) ↦ let (hs', q) = go x g in (hs', rw (e, receive) q)
  ]
    where
      go :
          (y : Signal) (g : Handler S)
          → Ends (elim y [
            | Signal.new_data p ↦ on_new_data io deeper links g.data_slots i p hs
            | z ↦ some (at i (times g.status_slots (on_status z)) hs)
          ])
      go (Signal.new_data p) g = on_new_data-Ends below links g.data_slots i p hs h l
      go Signal.started g = (_, refl)
      go (Signal.startup_error_occured m) g = (_, refl)
      go (Signal.error_occured m) g = (_, refl)

  receive_all-Ends :
      EndsBelow
      → (links : List Link) (i : ℕ) (xs : List Signal) (hs : List (Handler S)) → Descends rank links
      → rank i < suc n
      → Ends (receive_all io deeper links i xs hs)
  unfolding receive_all
  receive_all-Ends below links i [] hs h l = (hs, refl)
  receive_all-Ends below links i (x ∷ xs) hs h l =
      let (hs', q) = receive-Ends below links i x hs h l in
      let (hs'', r) = receive_all-Ends below links i xs hs' h l in (hs'', rw (q, receive_all) r)

-- Without a circle of connections every signal is handled, whatever the IOs emit when they are
-- written to; the depth of the calls is at most the rank of the handler, plus one.
pub emit-Ends :
    {S : Type 0} (io : Io S) (rank : ℕ → ℕ) (links : List Link) (fuel i : ℕ) (xs : List Signal)
    (hs : List (Handler S))
    → Descends rank links
    → rank i < fuel
    → Ends (emit io fuel links i xs hs)
unfolding emit
emit-Ends io rank links zero i xs hs h l = elim l [ ]
emit-Ends io rank links (suc fuel) i xs hs h l =
    receive_all-Ends io rank fuel (emit io fuel links)
      (λ d ys gs k. emit-Ends io rank links fuel d ys gs h k) links i xs hs h l
