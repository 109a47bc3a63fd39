-- ===== src/Table/Threads.antt =====
-- Threads that use one table of sequence numbers (helper/MapCacheHelper.h): getAndIncreaseSequence as
-- the steps between two acquisitions of insertMutex, under its own mutex, beside calls of save.
pub mod Counting
pub mod Steps
pub mod Calls
use ip_ndn_stack_cpp.Prelude.{ℕ, List, [], ◌∷◌, Bool, true, false, Option, none, some}
use ip_ndn_stack_cpp.Text.{Bytes}
use ip_ndn_stack_cpp.Word.{inc_int}
use ip_ndn_stack_cpp.Table.{Table, save, get, erase}

-- How far the call is whose thread holds `getAndIncreaseSequenceMutex`, and its key.
pub data Progress : Type 0 where
  entered : Bytes → Progress
  got : Bytes → ℕ → Bool → Progress
  erased : Bytes → ℕ → Progress

-- A finished call: its key, the index that the tuple got, if it got one, and what was returned.
pub record Call : Type 0 where
  pub key : Bytes
  pub index : Option ℕ
  pub success : Bool

-- `holder` is none while the mutex is free; finished calls are listed newest first.
pub record Shared : Type 0 where
  pub table : Table ℕ
  pub holder : Option Progress
  pub finished : List Call

-- The next step of the call.
unfoldable pub proceed : Progress → Shared → Shared
proceed (entered key) s =
    let (v, found) = get 0 key s.table in record s { holder = some (got key v found) }
proceed (got key v false) s = record s {
  holder = none;
  finished = record { key = key; index = none; success = false } ∷ s.finished;
}
proceed (got key v true) s = record s {
  table = (erase key s.table).0;
  holder = some (erased key v);
}
proceed (erased key v) s =
    let (table, success) = save key (inc_int v) s.table in
    record s {
      table = table;
      holder = none;
      finished = record { key = key; index = some (inc_int v); success = success } ∷ s.finished;
    }

-- What the scheduler lets happen next: a thread tries to enter a call, the holder of the mutex takes a
-- step, or a thread beside it saves.
pub data Action : Type 0 where
  enter : Bytes → Action
  go_on : Action
  save_beside : Bytes → ℕ → Action

abbrev pub enter_if_free : Bytes → Option Progress → Option Progress
enter_if_free key none = some (entered key)
enter_if_free key (some progress) = some progress

abbrev pub go_on_if_held : Option Progress → Shared → Shared
go_on_if_held none s = s
go_on_if_held (some progress) s = proceed progress s

-- A thread that finds the mutex taken waits.
unfoldable pub step : Action → Shared → Shared
step (enter key) s = record s { holder = enter_if_free key s.holder }
step go_on s = go_on_if_held s.holder s
step (save_beside key v) s = record s { table = (save key v s.table).0 }

unfoldable pub run : List Action → Shared → Shared
run [] s = s
run (a ∷ actions) s = run actions (step a s)
