-- ===== src/Engine/Names.antt =====
-- src/ioproxy/Handler.cpp and Engine.cpp: the handlers keep their names, in their order.
use ioproxy.Base.{
  ℕ, zero, suc, ◌≡◌, refl, sym, true, arith, eq_iff, Option-cases, ◌∙◌, ap, some, String, List,
  length, map, inl, inr, Bool-cases,
}
use ioproxy.Io.{Io, Signal}
use ioproxy.Handler.{
  Handler, times, count_read, count_written, connect_status, on_started, on_startup_error_occured,
  on_error_occured, set_state, set_error_message,
}
use ioproxy.Handler.Status.{on_status}
use ioproxy.Engine.{Engine, start, each, handler_start, with_handlers}
use ioproxy.Engine.Rule.{IsKept, Gives}
use ioproxy.Engine.Kept.{map-at}
use ioproxy.Engine.Lifecycle.{each-Gives, handler_start-Gives}

module _ {S : Type 0} where
  abbrev pub names : List (Handler S) → List String
  names = map λ h. h.unique_name

  on_status-unique_name : (x : Signal) (h : Handler S) → (on_status x h).unique_name ≡ h.unique_name
  unfolding on_status on_started on_startup_error_occured on_error_occured set_state
      set_error_message
  on_status-unique_name Signal.started h = ground (arith, eq_iff h.error_message "")
  on_status-unique_name (Signal.startup_error_occured m) h =
      ground (arith, eq_iff h.error_message m)
  on_status-unique_name (Signal.error_occured m) h = ground (arith, eq_iff h.error_message m)
  on_status-unique_name (Signal.new_data p) h = refl

  times-unique_name :
      (n : ℕ) (x : Signal) (h : Handler S) → (times n (on_status x) h).unique_name ≡ h.unique_name
  unfolding times
  times-unique_name zero x h = refl
  times-unique_name (suc n) x h = times-unique_name n x (on_status x h) ∙ on_status-unique_name x h

  names-IsKept : (c : List String) → IsKept (λ (hs : List (Handler S)). names hs ≡ c)
  unfolding count_read count_written
  names-IsKept c = record {
    by_io = λ d s hs e. map-at (λ h. h.unique_name) d _ hs (λ h. refl) ∙ e;
    by_written = λ d p hs e. map-at (λ h. h.unique_name) d _ hs (λ h. refl) ∙ e;
    by_read = λ d p hs e. map-at (λ h. h.unique_name) d _ hs (λ h. refl) ∙ e;
    by_status = λ d n x hs e. map-at (λ h. h.unique_name) d _ hs (times-unique_name n x) ∙ e;
  }

module _ {F S : Type 0} (io : Io S) (fuel : ℕ) where
  -- A start that ends leaves the handlers' names and the links as they were.
  pub start-names :
      (e e' : Engine F S)
      → start io fuel e ≡ some e'
      → (names e'.handlers ≡ names e.handlers) × (e'.links ≡ e.links)
  unfolding start connect_status
  start-names e e' h = elim (Bool-cases e.started) [
    | inl on ↦
        let h' = rw on at h in
        let x : e ≡ e' = cc in (ap (λ a. names a.handlers) (sym x), ap (λ a. a.links) (sym x))
    | inr off ↦ started_with (rw off at h)
  ]
    where
      kept :
          Gives
            (λ hs. names hs ≡ names e.handlers)
            (each (handler_start io fuel e.links) (length e.handlers) 0 e.handlers)
      kept =
          each-Gives io _ (names-IsKept (names e.handlers)) fuel e.links
            (handler_start io fuel e.links)
            (handler_start-Gives io _ (names-IsKept (names e.handlers)) fuel e.links
              (λ i s hs q. map-at (λ h. h.unique_name) i _ hs (λ g. refl) ∙ q))
            (length e.handlers) 0 e.handlers refl

      started_with :
          with_handlers e true
              (each (handler_start io fuel e.links) (length e.handlers) 0 e.handlers)
            ≡ some e'
          → (names e'.handlers ≡ names e.handlers) × (e'.links ≡ e.links)
      started_with q =
          elim (Option-cases
            (each (handler_start io fuel e.links) (length e.handlers) 0 e.handlers)) [
              | inl r ↦ let bad = rw r at q in cc
              | inr (hs, r) ↦
                  let q' = rw r at q in
                  let x : record e { handlers = hs; started = true } ≡ e' = cc in
                  (ap (λ a. names a.handlers) (sym x) ∙ kept hs r, ap (λ a. a.links) (sym x))
            ]
