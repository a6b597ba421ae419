-- ===== src/Util/Status.antt =====
-- src/ioproxy-cli/src/ConsoleStatusPrinter.cpp: the line of statistics that a timer prints each second.
-- The division of `double`s and its conversion to `qint64` are a parameter.
pub mod Lines
use ioproxy.Base.{Bool, true, false, Option, none, some, String, List, [], ◌∷◌, if◌then◌else◌}
use ioproxy.Base.Int.{ℤ, pos, ◌-ℤ◌}
use ioproxy.Engine.{Engine, Statistic, statistic_summary}
use ioproxy.Util.FileSize.{file_size, Digits}

pub record Printer : Type 0 where
  pub running : Bool
  pub previous_statistic : Statistic
  pub previous_timestamp : ℤ

-- What Qt does: digits, the joining of a number and a unit, the rate of a difference per second of
-- a difference of milliseconds, and the text of a line.
pub record Output : Type 0 where
  pub digits : Digits
  pub join : String → String → String
  pub rate : ℤ → ℤ → ℤ
  pub line : String → String → String → String → String

abbrev pub new_printer : Printer
new_printer = record {
  running = false;
  previous_statistic = record { bytes_read = 0; bytes_written = 0 };
  previous_timestamp = pos 0;
}

unfoldable pub start : Printer → Printer
start p = record p { running = true }

unfoldable pub stop : Printer → Printer
stop p = record p { running = false }

module _ (out : Output) where
  -- The text of two totals and of their differences to two totals before, over some time.
  unfoldable pub report : Statistic → Statistic → ℤ → String
  unfolding file_size
  report sum previous time =
      let read = out.rate (pos sum.bytes_read -ℤ pos previous.bytes_read) time in
      let write = out.rate (pos sum.bytes_written -ℤ pos previous.bytes_written) time in
      out.line (file_size out.digits out.join (pos sum.bytes_read) 2)
        (file_size out.digits out.join read 2)
        (file_size out.digits out.join (pos sum.bytes_written) 2)
        (file_size out.digits out.join write 2)

  unfoldable pub print_statistics : {F S : Type 0} → ℤ → Engine F S → Printer → Printer × String
  unfolding report
  print_statistics now e p =
      let sum = statistic_summary e in
      (
        record p { previous_statistic = sum; previous_timestamp = now },
        report sum p.previous_statistic (now -ℤ p.previous_timestamp),
      )

  -- The timer of a second: it fires only while it runs.
  unfoldable pub timeout : {F S : Type 0} → ℤ → Engine F S → Printer → Printer × Option String
  timeout now e p =
      let (p', text) = print_statistics now e p in if p.running then (p', some text) else (p, none)

  -- The lines of a running printer at some times, with the engine as it is then.
  unfoldable pub lines : {F S : Type 0} → List (ℤ × Engine F S) → Printer → List (Option String)
  unfolding timeout
  lines [] p = []
  lines ((now, e) ∷ rest) p = (timeout now e p).1 ∷ lines rest (timeout now e p).0
