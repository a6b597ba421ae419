-- ===== src/Relay/Events.antt =====
-- src/ioproxy/Engine.cpp, Handler.cpp and io/IOBase.hpp: an engine whose IOs read data, report errors, and are
-- written to, in any order. What happens at an IO is a slot of its device, which Qt's event loop calls.
use ioproxy.Base.{
  ℕ, ◌+◌, ◌≡◌, refl, sym, ap, ◌∙◌, inl, inr, Option, none, some, List, [], ◌∷◌, ◌++◌, get_elem?,
  arith, ◌==◌, Bool-cases, if◌then◌else◌,
}
use ioproxy.Io.{DataPack, count, Signal, Io}
use ioproxy.Handler.{Handler}
use ioproxy.Engine.Signals.{Link, at, emit}
use ioproxy.Engine.Delivery.{links_to}
use ioproxy.Relay.Flow.{more-nil, more-more, Tally, copies, more}

-- The data that IOs emitted, by their positions, oldest first.
abbrev pub Log : Type 0
Log = List (ℕ × DataPack)

-- What happens to the IO at a position.
pub record Event (S : Type 0) : Type 0 where
  pub position : ℕ
  pub act : S → S × List Signal

-- The data packs among the signals of an IO.
abbrev pub logged : ℕ → List Signal → Log
logged i [] = []
logged i (Signal.new_data p ∷ signals) = (i, p) ∷ logged i signals
logged i (Signal.started ∷ signals) = logged i signals
logged i (Signal.startup_error_occured m ∷ signals) = logged i signals
logged i (Signal.error_occured m ∷ signals) = logged i signals

module _ {S : Type 0} (io : Io S) (fuel : ℕ) (links : List Link) where
  -- One event: the IO changes, and its signals are handled.
  unfoldable pub occur : Event S → List (Handler S) → Option (List (Handler S) × Log)
  occur event hs = elim (get_elem? hs event.position) [
    | none ↦ some (hs, [])
    | some h ↦
        let (s, signals) = event.act h.io in
        elim (emit io fuel links event.position signals
          (at event.position (λ g. record g { io = s }) hs)) [
            | none ↦ none
            | some hs' ↦ some (hs', logged event.position signals)
          ]
  ]

  unfoldable pub occur_all : List (Event S) → List (Handler S) → Option (List (Handler S) × Log)
  unfolding occur
  occur_all [] hs = some (hs, [])
  occur_all (event ∷ events) hs = elim (occur event hs) [
    | none ↦ none
    | some (hs', log) ↦ elim (occur_all events hs') [
      | none ↦ none
      | some (hs'', rest) ↦ some (hs'', log ++ rest)
    ]
  ]

-- One pack of the log, for the handler at a position.
abbrev pub pass : List Link → ℕ → ℕ → DataPack → Tally → Tally
pass links d i p t =
    more (copies (links_to links i d) p.bytes)
      (if i == d then record t { read = t.read + count p } else t)

abbrev pub tally : List Link → ℕ → Log → Tally → Tally
tally links d [] t = t
tally links d ((i, p) ∷ log) t = tally links d log (pass links d i p t)

pub tally-append :
    (links : List Link) (d : ℕ) (l k : Log) (t : Tally)
    → tally links d k (tally links d l t) ≡ tally links d (l ++ k) t
tally-append links d [] k t = refl
tally-append links d ((i, p) ∷ l) k t = tally-append links d l k (pass links d i p t)

-- Signals of an IO that is not starting.
abbrev pub IsMild : List Signal → Type 0
IsMild [] = Unit
IsMild (Signal.new_data p ∷ signals) = IsMild signals
IsMild (Signal.error_occured m ∷ signals) = IsMild signals
IsMild (Signal.started ∷ signals) = ⊥
IsMild (Signal.startup_error_occured m ∷ signals) = ⊥

-- What happens at the IO takes no data, and leaves it ready.
pub record IsSource {S : Type 0} (Ready : S → Type 0) (taken : S → List ℕ)
    (act : S → S × List Signal) : Type 0 where
  pub mild : (s : S) → IsMild (act s).1
  pub keeps : (s : S) → Ready s → Ready (act s).0 × (taken (act s).0 ≡ taken s)

-- The bytes of a log that are for the handler at a position: each pack once for each connection.
unfoldable pub passed_on : List Link → ℕ → Log → List ℕ
passed_on links d [] = []
passed_on links d ((i, p) ∷ log) = copies (links_to links i d) p.bytes ++ passed_on links d log

-- The number of bytes in a log that the IO at a position emitted.
unfoldable pub read_at : ℕ → Log → ℕ
read_at d [] = 0
read_at d ((i, p) ∷ log) = let rest = read_at d log in if i == d then count p + rest else rest

pub tally_lem :
    (links : List Link) (d : ℕ) (log : Log) (t : Tally)
    → tally links d log t
      ≡ more (passed_on links d log) (record t { read = t.read + read_at d log })
unfolding passed_on read_at
tally_lem links d [] t = sym (more-nil t) ∙ ap (λ n. more [] (record t { read = n })) (omega arith)
tally_lem links d ((i, p) ∷ log) t =
    let l = copies (links_to links i d) p.bytes in
    let k = passed_on links d log in
    let n = read_at d log in
    tally_lem links d log (pass links d i p t) ∙ elim (Bool-cases (i == d)) [
      | inl same ↦ rw same (
          more-more l k (record t { read = t.read + count p + n })
          ∙ ap (λ m. more (l ++ k) (record t { read = m })) (omega arith))
      | inr other ↦ rw other (more-more l k (record t { read = t.read + n }))
    ]
