-- ===== src/Handler.antt =====
-- src/ioproxy/Handler.hpp and Handler.cpp. The counts of bytes are natural numbers: the source's
-- are `qint64`, whose overflow at 2^63 bytes is not modelled.
pub mod Status
use ioproxy.Base.{
  ℕ, zero, suc, ◌+◌, String, Bool, true, false, List, [], ◌∷◌, ◌++◌, str_eq, if◌then◌else◌,
}
use ioproxy.Io.{DataPack, count}

pub data State : Type 0 where
  stopped started failed : State

abbrev pub state_eq : State → State → Bool
state_eq stopped stopped = true
state_eq started started = true
state_eq failed failed = true
state_eq _ _ = false

-- The handler's own signals about its properties.
pub data Notice : Type 0 where
  state_changed error_message_changed : Notice

-- `io` is the state of the IO that `m_io` points to. `data_slots` counts the connections from its
-- signal `newData` to `onNewData`; `status_slots` those of the three other signals, which are made
-- together. Qt calls a slot once for each connection.
pub record Handler (S : Type 0) : Type 0 where
  pub unique_name : String
  pub io : S
  pub state : State
  pub error_message : String
  pub bytes_written : ℕ
  pub bytes_read : ℕ
  pub data_slots : ℕ
  pub status_slots : ℕ
  pub notices : List Notice

module _ {S : Type 0} where
  -- The constructor.
  unfoldable pub new_handler : String → S → Handler S
  new_handler name io = record {
    unique_name = name;
    io = io;
    state = stopped;
    error_message = "";
    bytes_written = 0;
    bytes_read = 0;
    data_slots = 1;
    status_slots = 0;
    notices = [];
  }

  unfoldable pub set_state : State → Handler S → Handler S
  set_state s h =
      if state_eq h.state s
      then h
      else record h { state = s; notices = h.notices ++ (state_changed ∷ []) }

  unfoldable pub set_error_message : String → Handler S → Handler S
  set_error_message m h =
      if str_eq h.error_message m
      then h
      else record h { error_message = m; notices = h.notices ++ (error_message_changed ∷ []) }

  unfoldable pub on_started : Handler S → Handler S
  unfolding set_state set_error_message
  on_started h = set_state started (set_error_message "" h)

  unfoldable pub on_startup_error_occured : String → Handler S → Handler S
  unfolding set_state set_error_message
  on_startup_error_occured m h = set_state failed (set_error_message m h)

  unfoldable pub on_error_occured : String → Handler S → Handler S
  unfolding set_state set_error_message
  on_error_occured m h = set_state failed (set_error_message m h)

  -- The part of `onNewData` that is about the handler itself.
  unfoldable pub count_read : DataPack → Handler S → Handler S
  count_read p h = record h { bytes_read = h.bytes_read + count p }

  unfoldable pub count_written : DataPack → Handler S → Handler S
  count_written p h = record h { bytes_written = h.bytes_written + count p }

  -- A slot is called once for each connection.
  unfoldable pub times : ℕ → (Handler S → Handler S) → Handler S → Handler S
  times zero f h = h
  times (suc n) f h = times n f (f h)

  -- The three `connect` lines of `start`.
  unfoldable pub connect_status : Handler S → Handler S
  connect_status h = record h { status_slots = h.status_slots + 1 }

  -- `m_io->disconnect(this)`
  unfoldable pub disconnect : Handler S → Handler S
  disconnect h = record h { data_slots = 0; status_slots = 0 }
