-- ===== src/Relay/Logs.antt =====
-- src/ioproxy/Engine.cpp: the bytes in the data that the IOs of an engine emitted, by their positions.
use mathlib.Core.List.{append_assoc}
use ioproxy.Base.{
  ℕ, ◌≡◌, refl, sym, ap, ◌∙◌, inl, inr, true, false, List, [], ◌∷◌, ◌++◌, ◌==◌, arith, Bool-cases,
}
use ioproxy.Io.{Signal}
use ioproxy.Relay.Events.{Log, logged}
use ioproxy.Relay.Heard.{bytes_of}
use ioproxy.Relay.Pair.{data_of}

pub data_of-append : (i : ℕ) (l k : Log) → data_of i (l ++ k) ≡ data_of i l ++ data_of i k
unfolding data_of
data_of-append i [] k = refl
data_of-append i ((j, p) ∷ l) k = elim (Bool-cases (j == i)) [
  | inl same ↦ rw same (
      ap (λ m. p.bytes ++ m) (data_of-append i l k)
      ∙ sym (append_assoc p.bytes (data_of i l) (data_of i k)))
  | inr other ↦ rw other (data_of-append i l k)
]

same_position : (i : ℕ) → (i == i) ≡ true
same_position i = ground arith

pub data_of-logged :
    (i : ℕ) (signals : List Signal) → data_of i (logged i signals) ≡ bytes_of signals
unfolding data_of bytes_of
data_of-logged i [] = refl
data_of-logged i (Signal.new_data p ∷ signals) =
    rw (same_position i) (ap (λ m. p.bytes ++ m) (data_of-logged i signals))
data_of-logged i (Signal.started ∷ signals) = data_of-logged i signals
data_of-logged i (Signal.startup_error_occured m ∷ signals) = data_of-logged i signals
data_of-logged i (Signal.error_occured m ∷ signals) = data_of-logged i signals

pub data_of-elsewhere :
    (i j : ℕ) (signals : List Signal) → (i == j) ≡ false → data_of j (logged i signals) ≡ []
unfolding data_of
data_of-elsewhere i j [] other = refl
data_of-elsewhere i j (Signal.new_data p ∷ signals) other =
    rw other (data_of-elsewhere i j signals other)
data_of-elsewhere i j (Signal.started ∷ signals) other = data_of-elsewhere i j signals other
data_of-elsewhere i j (Signal.startup_error_occured m ∷ signals) other =
    data_of-elsewhere i j signals other
data_of-elsewhere i j (Signal.error_occured m ∷ signals) other = data_of-elsewhere i j signals other
