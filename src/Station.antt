-- ===== src/Station.antt =====
-- src/ioproxy/io/IOBase.hpp: the virtual calls of an IO, in an engine that has IOs of two classes.
pub mod Recording
pub mod Copying
use ioproxy.Base.{List}
use ioproxy.Io.{DataPack, Signal, Io}

-- The state of an IO, and which class it is of.
pub data Station (A B : Type 0) : Type 0 where
  first : A → Station A B
  second : B → Station A B

module _ {A B : Type 0} where
  abbrev pub as_first : A × List Signal → Station A B × List Signal
  as_first (a, signals) = (first a, signals)

  abbrev pub as_second : B × List Signal → Station A B × List Signal
  as_second (b, signals) = (second b, signals)

  abbrev pub dispatch_start : Io A → Io B → Station A B → Station A B × List Signal
  dispatch_start f g (first a) = as_first (f.start a)
  dispatch_start f g (second b) = as_second (g.start b)

  abbrev pub dispatch_stop : Io A → Io B → Station A B → Station A B × List Signal
  dispatch_stop f g (first a) = as_first (f.stop a)
  dispatch_stop f g (second b) = as_second (g.stop b)

  abbrev pub dispatch_write_data : Io A → Io B → DataPack → Station A B → Station A B × List Signal
  dispatch_write_data f g p (first a) = as_first (f.write_data p a)
  dispatch_write_data f g p (second b) = as_second (g.write_data p b)

  -- `m_io->start()`, `m_io->stop()` and `m_io->writeData(data)`.
  abbrev pub station_io : Io A → Io B → Io (Station A B)
  station_io f g = record {
    start = dispatch_start f g;
    stop = dispatch_stop f g;
    write_data = dispatch_write_data f g;
  }
