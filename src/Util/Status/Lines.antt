-- ===== src/Util/Status/Lines.antt =====
-- Proofs on src/ioproxy-cli/src/ConsoleStatusPrinter.cpp: the lines of a printer that runs, and of one that does not.
use ioproxy.Base.{
  ℕ, ◌≡◌, refl, ap, ◌∙◌, true, false, Option, none, some, String, List, [], ◌∷◌, map, if_false,
}
use ioproxy.Base.Int.{ℤ, pos, ◌-ℤ◌}
use ioproxy.Engine.{Engine, Statistic, statistic_summary}
use ioproxy.Engine.Routing.Totals.{total_read, total_written, statistic_summary_lem}
use ioproxy.Util.FileSize.{file_size}
use ioproxy.Util.Status.{
  Printer, Output, new_printer, start, stop, report, print_statistics, timeout, lines,
}

module _ (out : Output) where
  abbrev size_text : ℤ → String
  size_text n = file_size out.digits out.join n 2

  -- The line for the totals `r` and `w` now, if they were `r0` and `w0` at a time `time` before.
  abbrev pub line_of : ℕ → ℕ → ℕ → ℕ → ℤ → String
  line_of r w r0 w0 time =
      out.line (size_text (pos r)) (size_text (out.rate (pos r -ℤ pos r0) time)) (size_text (pos w))
        (size_text (out.rate (pos w -ℤ pos w0) time))

  -- What each line is to report: the sums of what the handlers of its engine read and wrote, and the rates of
  -- their growth since the line before.
  abbrev pub reports : {F S : Type 0} → ℕ → ℕ → ℤ → List (ℤ × Engine F S) → List (Option String)
  reports r0 w0 previous [] = []
  reports r0 w0 previous ((now, e) ∷ rest) =
      let r = total_read e.handlers in
      let w = total_written e.handlers in
      some (line_of r w r0 w0 (now -ℤ previous)) ∷ reports r w now rest

  lines-running :
      {F S : Type 0} (ticks : List (ℤ × Engine F S)) (p : Printer)
      → p.running ≡ true
      → lines out ticks p
        ≡ reports p.previous_statistic.bytes_read p.previous_statistic.bytes_written
            p.previous_timestamp ticks
  unfolding lines print_statistics report
  lines-running [] p h = refl
  lines-running ((now, e) ∷ rest) p h =
      let q : Printer = record {
        running = true;
        previous_statistic = statistic_summary e;
        previous_timestamp = now;
      } in
      let totals = statistic_summary_lem e in
      let before = p.previous_statistic in
      rw (h, timeout)
        (ap
            (λ (sum : Statistic).
              some (
                line_of sum.bytes_read sum.bytes_written before.bytes_read before.bytes_written
                  (now -ℤ p.previous_timestamp))
              ∷ lines out rest q)
            totals
          ∙ ap
              (λ l.
                some (
                  line_of (total_read e.handlers) (total_written e.handlers) before.bytes_read
                    before.bytes_written (now -ℤ p.previous_timestamp))
                ∷ l)
              (lines-running rest q refl
                ∙ ap (λ (sum : Statistic). reports sum.bytes_read sum.bytes_written now rest)
                    totals))

  lines-stopped :
      {F S : Type 0} (ticks : List (ℤ × Engine F S)) (p : Printer)
      → p.running ≡ false
      → lines out ticks p ≡ map (λ tick. none) ticks
  unfolding lines timeout
  lines-stopped [] p h = refl
  lines-stopped ((now, e) ∷ rest) p h =
      let silent : timeout out now e p ≡ (p, none) = if_false _ _ h in
      ap (λ r. r.1 ∷ lines out rest r.0) silent ∙ ap (λ l. none ∷ l) (lines-stopped rest p h)

  -- A new printer that is started prints at each timeout the sums of what the handlers of the engine have read
  -- and written, each as `file_size` prints it, and the rates of both since the line before, the first
  -- since nothing at time 0. A printer that is stopped prints nothing at any timeout, and one that is then
  -- started goes on from the line before the stop.
  pub lines-start :
      {F S : Type 0} (ticks : List (ℤ × Engine F S)) (p : Printer)
      → (lines out ticks (start new_printer) ≡ reports 0 0 (pos 0) ticks)
        × (lines out ticks (stop p) ≡ map (λ tick. none) ticks)
        × (lines out ticks (start (stop p))
            ≡ reports p.previous_statistic.bytes_read p.previous_statistic.bytes_written
                p.previous_timestamp ticks)
  unfolding start stop
  lines-start ticks p = (
    lines-running ticks (start new_printer) refl,
    lines-stopped ticks (stop p) refl,
    lines-running ticks (start (stop p)) refl,
  )
