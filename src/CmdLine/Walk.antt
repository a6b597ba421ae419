-- ===== src/CmdLine/Walk.antt =====
-- src/ioproxy-cli/src/CmdLineConfig.cpp, `fromArguments`: the walk by an index is a recursion on the
-- arguments that are left.
use ioproxy.Base.{
  ℕ, zero, suc, ◌+◌, ◌<◌, ◌≡◌, refl, String, none, some, List, [], ◌∷◌, ◌++◌, length, arith,
  if◌then◌else◌, Expected, ok, err, empty_arguments, missing_connect_value,
}
use ioproxy.CmdLine.Text.{Spaces}
use ioproxy.CmdLine.{CmdLineConfig, is_some, set_parameter, loop, is_empty, from_arguments}
use ioproxy.CmdLine.Reading.{
  Collected, Word, opens, names, sets, connects, skips, word, close, with_io, join, opened, parse,
}
use ioproxy.CmdLine.Turns.{
  at_index, next-cons, next-nil, turn_by, turn-turn_by, collected, Agrees, add2config-close,
  turn_by-last, turn_by-cons,
}

loop-nil :
    (is_space : Spaces) (fuel : ℕ) (before : List String) (v : String) (a : Collected)
    → 0 < fuel
    → Agrees (loop is_space fuel (at_index before [] v a)) (ok (close a))
unfolding loop
loop-nil is_space zero before v a h = elim h [ ]
loop-nil is_space (suc fuel) before v a h = (
  ok (at_index before [] "" (close a)),
  rw (next-nil before v a, loop) (rw (next-nil before v a) (rw (add2config-close before [] "" a))),
  refl,
)

-- After a turn the loop goes on.
loop-cons :
    (is_space : Spaces) (fuel : ℕ) (before rest : List String) (v w : String) (a : Collected)
    → loop is_space (suc fuel) (at_index before (v ∷ rest) w a)
      ≡ elim (turn_by is_space
          (word v (is_some a.io_config))
          (at_index (before ++ (v ∷ [])) rest v a)) [
            | err e ↦ some (err e)
            | ok s ↦ loop is_space fuel s
          ]
unfolding loop
loop-cons is_space fuel before rest v w a =
    rw (next-cons before rest v w a, loop)
      (rw (next-cons before rest v w a, loop)
        (rw (turn-turn_by is_space (at_index (before ++ (v ∷ [])) rest v a), loop)))

-- A walk that has one argument left.
loop-last :
    (is_space : Spaces) (fuel : ℕ) (before : List String) (v x : String) (a : Collected)
    → 1 < suc fuel
    → Agrees (loop is_space (suc fuel) (at_index before (v ∷ []) x a)) (parse is_space (v ∷ []) a)
unfolding parse
loop-last is_space fuel before v x a h =
    rw (loop-cons is_space fuel before [] v x a) (go (word v (is_some a.io_config)))
  where
    go :
        (k : Word)
        → Agrees
            (elim (turn_by is_space k (at_index (before ++ (v ∷ [])) [] v a)) [
              | err e ↦ some (err e)
              | ok s ↦ loop is_space fuel s
            ])
            (elim k [ connects ↦ err missing_connect_value | _ ↦ ok (close a) ])
    go connects =
        rw (turn_by-last is_space (before ++ (v ∷ [])) v a connects)
          (err missing_connect_value, refl, refl)
    go skips =
        rw (turn_by-last is_space (before ++ (v ∷ [])) v a skips)
          (loop-nil is_space fuel (before ++ (v ∷ [])) v a (omega arith))
    go opens =
        rw (turn_by-last is_space (before ++ (v ∷ [])) v a opens)
          (closed (loop-nil is_space fuel (before ++ (v ∷ [])) "" (close a) (omega arith)))
      where
        closed :
            Agrees
              (loop is_space fuel (at_index (before ++ (v ∷ [])) [] "" (close a)))
              (ok (close (close a)))
            → Agrees
                (loop is_space fuel (at_index (before ++ (v ∷ [])) [] "" (close a)))
                (ok (close a))
        closed q = let e : close (close a) ≡ close a = ground arith in rw e at q
    go names =
        rw (turn_by-last is_space (before ++ (v ∷ [])) v a names)
          (loop-nil is_space fuel (before ++ (v ∷ [])) "" a (omega arith))
    go sets =
        rw (turn_by-last is_space (before ++ (v ∷ [])) v a sets)
          (loop-nil is_space fuel (before ++ (v ∷ [])) "" a (omega arith))

-- A walk that has two arguments or more left, where the walk from what is behind them agrees.
loop-more :
    (is_space : Spaces) (fuel : ℕ) (before rest : List String) (v w x : String) (a : Collected)
    → length rest + 2 < suc fuel
    → ((b l : List String) (y : String) (c : Collected)
        → length l < fuel
        → Agrees (loop is_space fuel (at_index b l y c)) (parse is_space l c))
    → Agrees
        (loop is_space (suc fuel) (at_index before (v ∷ w ∷ rest) x a))
        (parse is_space (v ∷ w ∷ rest) a)
unfolding parse
loop-more is_space fuel before rest v w x a h ih =
    rw (loop-cons is_space fuel before (w ∷ rest) v x a) (go (word v (is_some a.io_config)))
  where
    read : List String
    read = before ++ (v ∷ [])

    go :
        (k : Word)
        → Agrees
            (elim (turn_by is_space k (at_index read (w ∷ rest) v a)) [
              | err e ↦ some (err e)
              | ok s ↦ loop is_space fuel s
            ])
            (elim k [
              | opens ↦ parse is_space rest (record (close a) { io_config = some (opened w) })
              | names ↦ parse is_space rest (with_io (λ c. record c { id = w }) a)
              | sets ↦ parse is_space rest (with_io (set_parameter w) a)
              | connects ↦ elim (join is_space w a) [ err e ↦ err e | ok b ↦ parse is_space rest b ]
              | skips ↦ parse is_space (w ∷ rest) a
            ])
    go opens = rw (turn_by-cons is_space read rest v w a opens) (
        ih (read ++ (w ∷ [])) rest w (record (close a) { io_config = some (opened w) })
          (omega arith))
    go names =
        rw (turn_by-cons is_space read rest v w a names)
          (ih (read ++ (w ∷ [])) rest w (with_io (λ c. record c { id = w }) a) (omega arith))
    go sets =
        rw (turn_by-cons is_space read rest v w a sets)
          (ih (read ++ (w ∷ [])) rest w (with_io (set_parameter w) a) (omega arith))
    go connects = rw (turn_by-cons is_space read rest v w a connects) (joined (join is_space w a))
      where
        joined :
            (j : Expected Collected)
            → Agrees
                (elim (elim j as (λ _. Expected CmdLineConfig) [
                  | err e ↦ err e
                  | ok b ↦ ok (at_index (read ++ (w ∷ [])) rest w b)
                ]) [ err e ↦ some (err e) | ok s ↦ loop is_space fuel s ])
                (elim j [ err e ↦ err e | ok b ↦ parse is_space rest b ])
        joined (err e) = (err e, refl, refl)
        joined (ok b) = ih (read ++ (w ∷ [])) rest w b (omega arith)
    go skips =
        rw (turn_by-cons is_space read rest v w a skips) (ih read (w ∷ rest) v a (omega arith))

loop-parse :
    (is_space : Spaces) (fuel : ℕ) (before rest : List String) (x : String) (a : Collected)
    → length rest < fuel
    → Agrees (loop is_space fuel (at_index before rest x a)) (parse is_space rest a)
unfolding parse
loop-parse is_space fuel before [] x a h = loop-nil is_space fuel before x a (omega arith)
loop-parse is_space zero before (v ∷ rest) x a h = elim h [ ]
loop-parse is_space (suc fuel) before (v ∷ []) x a h =
    loop-last is_space fuel before v x a (omega arith)
loop-parse is_space (suc fuel) before (v ∷ w ∷ rest) x a h =
    loop-more is_space fuel before rest v w x a (omega arith)
      (λ b l y c. loop-parse is_space fuel b l y c)

abbrev pub nothing_yet : Collected
nothing_yet = record { io_config = none; ios = []; connections = [] }

-- The walk over the arguments ends, with fuel above their number, and gives what the recursion on
-- the arguments gives; an empty list of arguments is an error.
pub from_arguments-parse :
    (is_space : Spaces) (fuel : ℕ) (arguments : List String)
    → length arguments < fuel
    → (r : Expected CmdLineConfig) × (from_arguments is_space fuel arguments ≡ some r)
      × (collected r ≡ (
          if is_empty arguments then err empty_arguments else parse is_space arguments nothing_yet))
unfolding from_arguments
from_arguments-parse is_space fuel [] h = (err empty_arguments, refl, refl)
from_arguments-parse is_space fuel (v ∷ rest) h =
    loop-parse is_space fuel [] (v ∷ rest) "" nothing_yet h
