-- ===== src/CmdLine/Turns.antt =====
-- src/ioproxy-cli/src/CmdLineConfig.cpp, `fromArguments`: what one turn of the loop does.
use mathlib.Core.List.{append_assoc}
use ioproxy.Base.{
  ◌+◌, ◌≡◌, refl, ap, String, Bool, true, false, ◌&&◌, ◌||◌, Option, some, List, [], ◌∷◌, ◌++◌,
  length, ltb, length-append, arith, str_eq, if◌then◌else◌, Expected, ok, err,
  missing_connect_value,
}
use ioproxy.CmdLine.Text.{Spaces}
use ioproxy.CmdLine.{
  IoConfig, CmdLineConfig, is_some, argument_at, next, add2config, change, set_parameter, connect,
  turn,
}
use ioproxy.CmdLine.Reading.{
  Collected, Word, opens, names, sets, connects, skips, word, close, with_io, join, opened,
}

-- The state of the source after it has read `before` and with `rest` to come.
abbrev pub at_index : List String → List String → String → Collected → CmdLineConfig
at_index before rest v a = record {
  arguments = before ++ rest;
  index = length before;
  val = v;
  io_config = a.io_config;
  ios = a.ios;
  connections = a.connections;
}

pub argument_at-append :
    (before rest : List String) (v : String)
    → argument_at (before ++ (v ∷ rest)) (length before) ≡ v
argument_at-append [] rest v = refl
argument_at-append (b ∷ before) rest v = argument_at-append before rest v

pub next-cons :
    (before rest : List String) (v w : String) (a : Collected)
    → next (at_index before (v ∷ rest) w a) ≡ (at_index (before ++ (v ∷ [])) rest v a, true)
unfolding next
next-cons before rest v w a =
    let more : ltb (length before) (length (before ++ (v ∷ rest))) ≡ true =
      ground (arith, length-append before (v ∷ rest)) in
    let size : length (before ++ (v ∷ [])) ≡ length before + 1 =
      omega (arith, length-append before (v ∷ [])) in
    let list : (before ++ (v ∷ [])) ++ rest ≡ before ++ (v ∷ rest) =
      append_assoc before (v ∷ []) rest in
    rw more (rw (argument_at-append before rest v, size, list))

pub next-nil :
    (before : List String) (w : String) (a : Collected)
    → next (at_index before [] w a) ≡ (at_index before [] "" a, false)
unfolding next
next-nil before w a =
    let done : ltb (length before) (length (before ++ [])) ≡ false =
      ground (arith, length-append before []) in
    rw done

pub turn_by : Spaces → Word → CmdLineConfig → Expected CmdLineConfig
turn_by is_space opens s =
    let (s', found) = next (add2config s) in
    ok (if found then record s' { io_config = some (opened s'.val) } else s')
turn_by is_space names s =
    let (s', found) = next s in ok (if found then change (λ c. record c { id = s'.val }) s' else s')
turn_by is_space sets s =
    let (s', found) = next s in ok (if found then change (set_parameter s'.val) s' else s')
turn_by is_space connects s =
    let (s', found) = next s in if found then connect is_space s' else err missing_connect_value
turn_by is_space skips s = ok s

pub turn-turn_by :
    (is_space : Spaces) (s : CmdLineConfig)
    → turn is_space s ≡ turn_by is_space (word s.val (is_some s.io_config)) s
unfolding turn turn_by
turn-turn_by is_space s =
    go (str_eq s.val "-io") (str_eq s.val "-name" || str_eq s.val "-id") (str_eq s.val "-p")
      (str_eq s.val "-connect") (is_some s.io_config)
  where
    go :
        (a b c d e : Bool)
        → (if a
            then turn_by is_space opens s
            else if b && e
            then turn_by is_space names s
            else if c && e
            then turn_by is_space sets s
            else if d
            then turn_by is_space connects s
            else ok s)
          ≡ turn_by is_space
              (if a
                then opens
                else if b && e
                then names
                else if c && e
                then sets
                else if d
                then connects
                else skips)
              s
    go true b c d e = refl
    go false true c d true = refl
    go false true true d false = ground arith
    go false true false d false = ground arith
    go false false true d true = refl
    go false false true d false = ground arith
    go false false false true e = refl
    go false false false false e = refl

-- What the state has collected.
abbrev pub collected : Expected CmdLineConfig → Expected Collected
collected (err e) = err e
collected (ok s) = ok (record { io_config = s.io_config; ios = s.ios; connections = s.connections })

-- The walk ends, with what the recursion gives.
abbrev pub Agrees : Option (Expected CmdLineConfig) → Expected Collected → Type 0
Agrees o r = (x : Expected CmdLineConfig) × (o ≡ some x) × (collected x ≡ r)

pub add2config-close :
    (before rest : List String) (v : String) (a : Collected)
    → add2config (at_index before rest v a) ≡ at_index before rest v (close a)
unfolding add2config
add2config-close before rest v a = ground arith

pub change-with_io :
    (f : IoConfig → IoConfig) (before rest : List String) (v : String) (a : Collected)
    → change f (at_index before rest v a) ≡ at_index before rest v (with_io f a)
change-with_io f before rest v a = ground arith

pub connect-join :
    (is_space : Spaces) (before rest : List String) (v : String) (a : Collected)
    → connect is_space (at_index before rest v a)
      ≡ elim (join is_space v a) [ err e ↦ err e | ok b ↦ ok (at_index before rest v b) ]
unfolding connect
connect-join is_space before rest v a = ground arith

-- One turn on the last argument.
pub turn_by-last :
    (is_space : Spaces) (before : List String) (v : String) (a : Collected) (k : Word)
    → turn_by is_space k (at_index before [] v a) ≡ elim k [
      | connects ↦ err missing_connect_value
      | skips ↦ ok (at_index before [] v a)
      | opens ↦ ok (at_index before [] "" (close a))
      | names ↦ ok (at_index before [] "" a)
      | sets ↦ ok (at_index before [] "" a)
    ]
unfolding turn_by
turn_by-last is_space before v a opens =
    rw (add2config-close before [] v a) (rw (next-nil before v (close a)))
turn_by-last is_space before v a names = rw (next-nil before v a)
turn_by-last is_space before v a sets = rw (next-nil before v a)
turn_by-last is_space before v a connects = rw (next-nil before v a)
turn_by-last is_space before v a skips = refl

-- One turn with an argument behind it.
pub turn_by-cons :
    (is_space : Spaces) (before rest : List String) (v w : String) (a : Collected) (k : Word)
    → turn_by is_space k (at_index before (w ∷ rest) v a) ≡ elim k [
      | opens ↦
          ok (
            at_index (before ++ (w ∷ [])) rest w (record (close a) { io_config = some (opened w) }))
      | names ↦ ok (at_index (before ++ (w ∷ [])) rest w (with_io (λ c. record c { id = w }) a))
      | sets ↦ ok (at_index (before ++ (w ∷ [])) rest w (with_io (set_parameter w) a))
      | connects ↦ elim (join is_space w a) [
        | err e ↦ err e
        | ok b ↦ ok (at_index (before ++ (w ∷ [])) rest w b)
      ]
      | skips ↦ ok (at_index before (w ∷ rest) v a)
    ]
unfolding turn_by
turn_by-cons is_space before rest v w a opens =
    rw (add2config-close before (w ∷ rest) v a) (rw (next-cons before rest w v (close a)))
turn_by-cons is_space before rest v w a names =
    rw (next-cons before rest w v a) (ap ok (change-with_io _ (before ++ (w ∷ [])) rest w a))
turn_by-cons is_space before rest v w a sets =
    rw (next-cons before rest w v a)
      (ap ok (change-with_io (set_parameter w) (before ++ (w ∷ [])) rest w a))
turn_by-cons is_space before rest v w a connects =
    rw (next-cons before rest w v a) (connect-join is_space (before ++ (w ∷ [])) rest w a)
turn_by-cons is_space before rest v w a skips = refl
