-- ===== src/Engine.antt =====
-- src/ioproxy/Engine.hpp and Engine.cpp.
pub mod Signals
pub mod Positions
pub mod Delivery
pub mod Ending
pub mod Routing
pub mod Rule
pub mod Kept
pub mod Lifecycle
pub mod Steps
pub mod Restart
pub mod Total
pub mod Names
pub mod Connecting
pub mod Circle
pub mod Registry
pub mod Lookup
use Signals.{Link, emit, at}
use ioproxy.Base.{
  ℕ, zero, suc, ◌+◌, String, Bool, true, false, Option, none, some, List, [], ◌∷◌, ◌++◌, length,
  get_elem?, if◌then◌else◌, Expected, ok, ◌>>=◌,
}
use ioproxy.Io.{Io}
use ioproxy.Handler.{Handler, new_handler, connect_status, disconnect}
use Registry.{Factories}
use Lookup.{get_io_handler}

pub record Engine (F S : Type 0) : Type 0 where
  pub io_factories : Factories F
  pub handlers : List (Handler S)
  -- The connections that `addConnection` makes, by the positions of the two handlers.
  pub links : List Link
  pub started : Bool

pub record Statistic : Type 0 where
  pub bytes_read : ℕ
  pub bytes_written : ℕ

-- The constructor.
abbrev pub empty_engine : {F S : Type 0} → Engine F S
empty_engine = record { io_factories = []; handlers = []; links = []; started = false }

module _ {F S : Type 0} (fold_case : String → String) where
  unfoldable pub add_connection : Engine F S → String → String → Expected (Engine F S)
  unfolding get_io_handler
  add_connection e src dst = do
    s ← get_io_handler fold_case e.handlers src
    d ← get_io_handler fold_case e.handlers dst
    ok (record e { links = e.links ++ ((s, d) ∷ []) })

module _ {S : Type 0} where
  sum_up : List (Handler S) → Statistic → Statistic
  sum_up [] sum = sum
  sum_up (h ∷ hs) sum = sum_up hs (record {
    bytes_read = sum.bytes_read + h.bytes_read;
    bytes_written = sum.bytes_written + h.bytes_written;
  })

  unfoldable pub statistic_summary : {F : Type 0} → Engine F S → Statistic
  unfolding sum_up
  statistic_summary e = sum_up e.handlers (record { bytes_read = 0; bytes_written = 0 })

module _ {S : Type 0} where
  -- `for (const auto& handler : m_handlers)`, from a position on.
  unfoldable pub each :
      (ℕ → List (Handler S) → Option (List (Handler S)))
      → ℕ
      → ℕ
      → List (Handler S)
      → Option (List (Handler S))
  each f zero i hs = some hs
  each f (suc n) i hs = elim (f i hs) [ none ↦ none | some hs' ↦ each f n (i + 1) hs' ]

module _ {S : Type 0} (io : Io S) (fuel : ℕ) (links : List Link) where
  -- `Handler::start` of the handler at a position.
  unfoldable pub handler_start : ℕ → List (Handler S) → Option (List (Handler S))
  handler_start i hs = elim (get_elem? hs i) [
    | none ↦ some hs
    | some h ↦
        let (s, signals) = io.start h.io in
        emit io fuel links i signals (at i (λ g. record (connect_status g) { io = s }) hs)
  ]

  -- `Handler::stop`: the signals of the IO's `stop` still arrive, then all connections are gone.
  unfoldable pub handler_stop : ℕ → List (Handler S) → Option (List (Handler S))
  handler_stop i hs = elim (get_elem? hs i) [
    | none ↦ some hs
    | some h ↦
        let (s, signals) = io.stop h.io in
        elim (emit io fuel links i signals (at i (λ g. record g { io = s }) hs)) [
          | none ↦ none
          | some hs' ↦ some (at i disconnect hs')
        ]
  ]

module _ {F S : Type 0} where
  abbrev pub with_handlers : Engine F S → Bool → Option (List (Handler S)) → Option (Engine F S)
  with_handlers e s none = none
  with_handlers e s (some hs) = some (record e { handlers = hs; started = s })

module _ {F S : Type 0} (io : Io S) (fuel : ℕ) where
  unfoldable pub start : Engine F S → Option (Engine F S)
  unfolding each handler_start
  start e =
      if e.started
      then some e
      else with_handlers e true
          (each (handler_start io fuel e.links) (length e.handlers) 0 e.handlers)

  unfoldable pub stop : Engine F S → Option (Engine F S)
  unfolding each handler_stop
  stop e =
      with_handlers e false (each (handler_stop io fuel e.links) (length e.handlers) 0 e.handlers)

  -- The new handler starts before it is in the list, so it has no connections to others yet.
  unfoldable pub add_io : String → S → Engine F S → Option (Engine F S)
  unfolding handler_start new_handler
  add_io name s e =
      let fresh : List (Handler S) = new_handler name s ∷ [] in
      if e.started
      then elim (handler_start io fuel [] 0 fresh) [
        | none ↦ none
        | some hs ↦ some (record e { handlers = e.handlers ++ hs })
      ]
      else some (record e { handlers = e.handlers ++ fresh })
