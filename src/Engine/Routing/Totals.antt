-- ===== src/Engine/Routing/Totals.antt =====
-- src/ioproxy/Engine.cpp: what statisticSummary shows of the data that an IO emits.
use ioproxy.Base.{
  ℕ, zero, suc, ◌+◌, ◌*◌, ◌≡◌, refl, ap, ◌∙◌, some, List, [], ◌∷◌, get_elem?, arith, ◌==◌,
  if◌then◌else◌, Bool-cases, inl, inr,
}
use ioproxy.Io.{DataPack, count, Signal, Io}
use ioproxy.Handler.{Handler, State, state_eq, count_read}
use ioproxy.Engine.{Engine, Statistic, sum_up, statistic_summary}
use ioproxy.Engine.Signals.{Link, at, emit}
use ioproxy.Engine.Delivery.{delivered}
use ioproxy.Engine.Routing.{IsSilent, write_once, emit-delivered}

module _ {S : Type 0} where
  abbrev pub total_read : List (Handler S) → ℕ
  total_read [] = 0
  total_read (h ∷ hs) = h.bytes_read + total_read hs

  abbrev pub total_written : List (Handler S) → ℕ
  total_written [] = 0
  total_written (h ∷ hs) = h.bytes_written + total_written hs

  sum_up-total_read :
      (hs : List (Handler S)) (sum : Statistic)
      → (sum_up hs sum).bytes_read ≡ sum.bytes_read + total_read hs
  unfolding sum_up
  sum_up-total_read [] sum = omega arith
  sum_up-total_read (h ∷ hs) sum = omega (
    arith,
    sum_up-total_read hs (record {
      bytes_read = sum.bytes_read + h.bytes_read;
      bytes_written = sum.bytes_written + h.bytes_written;
    }),
  )

  sum_up-total_written :
      (hs : List (Handler S)) (sum : Statistic)
      → (sum_up hs sum).bytes_written ≡ sum.bytes_written + total_written hs
  unfolding sum_up
  sum_up-total_written [] sum = omega arith
  sum_up-total_written (h ∷ hs) sum = omega (
    arith,
    sum_up-total_written hs (record {
      bytes_read = sum.bytes_read + h.bytes_read;
      bytes_written = sum.bytes_written + h.bytes_written;
    }),
  )

  pub statistic_summary_lem :
      {F : Type 0} (e : Engine F S)
      → statistic_summary e
        ≡ record { bytes_read = total_read e.handlers; bytes_written = total_written e.handlers }
  unfolding statistic_summary
  statistic_summary_lem e =
      let none_yet : Statistic = record { bytes_read = 0; bytes_written = 0 } in
      let sum = sum_up e.handlers none_yet in
      let a : sum.bytes_read ≡ total_read e.handlers =
        omega (arith, sum_up-total_read e.handlers none_yet) in
      let b : sum.bytes_written ≡ total_written e.handlers =
        omega (arith, sum_up-total_written e.handlers none_yet) in
      let first : ℕ → Statistic =
        λ n. record { bytes_read = n; bytes_written = sum.bytes_written } in
      let second : ℕ → Statistic =
        λ n. record { bytes_read = total_read e.handlers; bytes_written = n } in
      ap first a ∙ ap second b

  -- 1 if there is a handler at the position and it is started.
  abbrev pub running : List (Handler S) → ℕ → ℕ
  running [] d = 0
  running (h ∷ hs) zero = if state_eq h.state State.started then 1 else 0
  running (h ∷ hs) (suc d) = running hs d

  -- How many connections lead from a position to handlers that are started.
  abbrev pub writes : List Link → ℕ → List (Handler S) → ℕ
  writes [] i hs = 0
  writes ((s, d) ∷ links) i hs =
      let rest = writes links i hs in if s == i then running hs d + rest else rest

  running-count_read :
      (p : DataPack) (i d : ℕ) (hs : List (Handler S))
      → running (at i (count_read p) hs) d ≡ running hs d
  unfolding count_read
  running-count_read p i d [] = refl
  running-count_read p zero zero (h ∷ hs) = refl
  running-count_read p zero (suc d) (h ∷ hs) = refl
  running-count_read p (suc i) zero (h ∷ hs) = refl
  running-count_read p (suc i) (suc d) (h ∷ hs) = running-count_read p i d hs

  total_read-count_read :
      (p : DataPack) (i : ℕ) (hs : List (Handler S)) (h : Handler S)
      → get_elem? hs i ≡ some h
      → total_read (at i (count_read p) hs) ≡ total_read hs + count p
  unfolding count_read
  total_read-count_read p i [] h e = cc
  total_read-count_read p zero (x ∷ hs) h e = omega arith
  total_read-count_read p (suc i) (x ∷ hs) h e = omega (arith, total_read-count_read p i hs h e)

  total_written-count_read :
      (p : DataPack) (i : ℕ) (hs : List (Handler S))
      → total_written (at i (count_read p) hs) ≡ total_written hs
  unfolding count_read
  total_written-count_read p i [] = refl
  total_written-count_read p zero (x ∷ hs) = refl
  total_written-count_read p (suc i) (x ∷ hs) = omega (arith, total_written-count_read p i hs)

  writes-same :
      (links : List Link) (i : ℕ) (hs gs : List (Handler S))
      → ((d : ℕ) → running hs d ≡ running gs d)
      → writes links i hs ≡ writes links i gs
  writes-same [] i hs gs h = refl
  writes-same ((s, d) ∷ links) i hs gs h = ground (arith, h d, writes-same links i hs gs h)

  module _ (io : Io S) where
    running-write_once :
        (p : DataPack) (i d : ℕ) (hs : List (Handler S))
        → running (at i (write_once io p) hs) d ≡ running hs d
    unfolding write_once
    running-write_once p i d [] = refl
    running-write_once p zero zero (h ∷ hs) = elim (Bool-cases (state_eq h.state State.started)) [
      | inl e ↦ rw (e, write_once) (rw e refl)
      | inr e ↦ rw (e, write_once) (rw e refl)
    ]
    running-write_once p zero (suc d) (h ∷ hs) = refl
    running-write_once p (suc i) zero (h ∷ hs) = refl
    running-write_once p (suc i) (suc d) (h ∷ hs) = running-write_once p i d hs

    total_read-write_once :
        (p : DataPack) (d : ℕ) (hs : List (Handler S))
        → total_read (at d (write_once io p) hs) ≡ total_read hs
    unfolding write_once
    total_read-write_once p d [] = refl
    total_read-write_once p zero (h ∷ hs) = ground arith
    total_read-write_once p (suc d) (h ∷ hs) = omega (arith, total_read-write_once p d hs)

    total_written-write_once :
        (p : DataPack) (d : ℕ) (hs : List (Handler S))
        → total_written (at d (write_once io p) hs) ≡ total_written hs + count p * running hs d
    unfolding write_once
    total_written-write_once p d [] = ground arith
    total_written-write_once p zero (h ∷ hs) = ground arith
    total_written-write_once p (suc d) (h ∷ hs) = grind (arith, total_written-write_once p d hs)

    total_read-delivered :
        (links : List Link) (i : ℕ) (p : DataPack) (hs : List (Handler S))
        → total_read (delivered (write_once io) links i p hs) ≡ total_read hs
    unfolding delivered
    total_read-delivered [] i p hs = refl
    total_read-delivered ((s, d) ∷ links) i p hs =
        total_read-delivered links i p _ ∙ ground (arith, total_read-write_once p d hs)

    total_written-delivered :
        (links : List Link) (i : ℕ) (p : DataPack) (hs : List (Handler S))
        → total_written (delivered (write_once io) links i p hs)
          ≡ total_written hs + count p * writes links i hs
    unfolding delivered
    total_written-delivered [] i p hs = ground arith
    total_written-delivered ((s, d) ∷ links) i p hs = elim (Bool-cases (s == i)) [
      | inl e ↦
          rw (e, delivered)
            (let kept =
                writes-same links i (at d (write_once io p) hs) hs
                  (λ j. running-write_once p d j hs) in
              let below = total_written-delivered links i p (at d (write_once io p) hs) in
              let here = total_written-write_once p d hs in grind arith)
      | inr e ↦ rw (e, delivered) (total_written-delivered links i p hs)
    ]

module _ {F S : Type 0} (io : Io S) where
  -- Data that an IO emits adds its bytes once to what the engine's statistic counts as read, and once for
  -- every connection from its handler to a started handler to what it counts as written. This is of IOs
  -- that emit nothing while they are written to, and of a handler that is connected exactly once to the
  -- data of its IO, as one is from its creation until its first stop.
  pub statistic_summary-new_data :
      (fuel i : ℕ) (p : DataPack) (e : Engine F S) (h : Handler S)
      → IsSilent io
      → get_elem? e.handlers i ≡ some h
      → h.data_slots ≡ 1
      → (hs : List (Handler S)) × (emit io (suc fuel) e.links i (Signal.new_data p ∷ []) e.handlers
          ≡ some hs)
        × ((statistic_summary (record e { handlers = hs })).bytes_read
            ≡ (statistic_summary e).bytes_read + count p)
        × ((statistic_summary (record e { handlers = hs })).bytes_written
            ≡ (statistic_summary e).bytes_written + count p * writes e.links i e.handlers)
  unfolding statistic_summary
  statistic_summary-new_data fuel i p e h silent at_i one =
      let none_yet : Statistic = record { bytes_read = 0; bytes_written = 0 } in
      let counted = at i (count_read p) e.handlers in
      let hs = delivered (write_once io) e.links i p counted in
      let same =
        writes-same e.links i counted e.handlers (λ d. running-count_read p i d e.handlers) in
      (
        hs,
        emit-delivered io e.links fuel i p e.handlers h silent at_i one,
        omega (
          arith,
          sum_up-total_read hs none_yet,
          total_read-delivered io e.links i p counted,
          total_read-count_read p i e.handlers h at_i,
          sum_up-total_read e.handlers none_yet,
        ),
        sum_up-total_written hs none_yet
            ∙ (omega (
              arith,
              total_written-delivered io e.links i p counted,
              total_written-count_read p i e.handlers,
              sum_up-total_written e.handlers none_yet,
            )
                ∙ ap (λ n. (statistic_summary e).bytes_written + count p * n) same),
      )
