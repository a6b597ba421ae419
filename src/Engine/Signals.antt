-- ===== src/Engine/Signals.antt =====
-- src/ioproxy/Handler.cpp and Engine.cpp: how the signals of an IO reach its handler, and how data
-- is forwarded from handler to handler. Slots run at once, within the call that emits the signal,
-- so a pack that comes back to an IO on the way is a deeper call: the fuel bounds the depth.
use ioproxy.Base.{ℕ, zero, suc, Option, none, some, List, [], ◌∷◌, get_elem?, ◌==◌, if◌then◌else◌}
use ioproxy.Io.{DataPack, Signal, Io}
use ioproxy.Handler.{Handler, State, state_eq, count_read, count_written, times}
use ioproxy.Handler.Status.{on_status}

-- A connection of `newData` to `writeData`, by the positions of the two handlers.
abbrev pub Link : Type 0
Link = ℕ × ℕ

-- Changes the entry at a position.
abbrev pub at {ℓ} : {A : Type ℓ} → ℕ → (A → A) → List A → List A
at i f [] = []
at zero f (x ∷ xs) = f x ∷ xs
at (suc i) f (x ∷ xs) = x ∷ at i f xs

-- A way to handle the signals that the IO at a position emits.
abbrev pub Emit : Type 0 → Type 0
Emit S = ℕ → List Signal → List (Handler S) → Option (List (Handler S))

module _ {S : Type 0} where
  -- `Handler::writeData` of the handler at `d`, where `deeper` handles the signals that its IO emits.
  unfoldable pub write_data :
      Io S → Emit S → ℕ → DataPack → List (Handler S) → Option (List (Handler S))
  unfolding count_written
  write_data io deeper d p hs = elim (get_elem? hs d) [
    | none ↦ some hs
    | some h ↦
        if state_eq h.state State.started
        then (let (s, signals) = io.write_data p h.io in
            elim (deeper d signals (at d (λ g. record g { io = s }) hs)) [
              | none ↦ none
              | some hs' ↦ some (at d (count_written p) hs')
            ])
        else some hs
  ]

  -- `Q_EMIT newData(data)` of the handler at `i`: one call for each connection, oldest first.
  unfoldable pub forward :
      Io S → Emit S → List Link → ℕ → DataPack → List (Handler S) → Option (List (Handler S))
  unfolding write_data
  forward io deeper [] i p hs = some hs
  forward io deeper ((s, d) ∷ links) i p hs =
      elim (if s == i then write_data io deeper d p hs else some hs) [
        | none ↦ none
        | some hs' ↦ forward io deeper links i p hs'
      ]

  -- `onNewData`, once for each connection of the IO's signal.
  unfoldable pub on_new_data :
      Io S → Emit S → List Link → ℕ → ℕ → DataPack → List (Handler S) → Option (List (Handler S))
  unfolding forward count_read
  on_new_data io deeper links zero i p hs = some hs
  on_new_data io deeper links (suc n) i p hs =
      elim (forward io deeper links i p (at i (count_read p) hs)) [
        | none ↦ none
        | some hs' ↦ on_new_data io deeper links n i p hs'
      ]

  -- One signal of the IO at `i`.
  unfoldable pub receive :
      Io S → Emit S → List Link → ℕ → Signal → List (Handler S) → Option (List (Handler S))
  unfolding on_new_data times on_status
  receive io deeper links i x hs = elim (get_elem? hs i) [
    | none ↦ some hs
    | some h ↦ elim x [
      | Signal.new_data p ↦ on_new_data io deeper links h.data_slots i p hs
      | y ↦ some (at i (times h.status_slots (on_status y)) hs)
    ]
  ]

  unfoldable pub receive_all :
      Io S → Emit S → List Link → ℕ → List Signal → List (Handler S) → Option (List (Handler S))
  unfolding receive
  receive_all io deeper links i [] hs = some hs
  receive_all io deeper links i (x ∷ xs) hs = elim (receive io deeper links i x hs) [
    | none ↦ none
    | some hs' ↦ receive_all io deeper links i xs hs'
  ]

  -- The signals that the IO at `i` emits. `none` means that the calls went deeper than the fuel.
  unfoldable pub emit : Io S → ℕ → List Link → Emit S
  emit io zero links i [] hs = some hs
  emit io zero links i (x ∷ xs) hs = none
  emit io (suc fuel) links i signals hs = receive_all io (emit io fuel links) links i signals hs
