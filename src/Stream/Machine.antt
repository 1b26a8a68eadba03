-- ===== src/Stream/Machine.antt =====
-- A stream that several goroutines use: each step is one critical section of a method, so that the
-- methods interleave with the closing goroutine, which calls its callbacks without the lock.
pub mod Invariant
pub mod Order
pub mod Calls
mod Tests
use dify_plugin_daemon.Common.{ℕ, zero, suc, ◌+◌, Option, none, some, List, [], ◌∷◌, if◌then◌else◌}
use dify_plugin_daemon.Stream.{
  Callbacks, done, call, Stream, ReadResult, data_read, filtered, failed, empty, WriteResult,
  written, dropped, queue_full, is_open, new_stream, filter, run_callbacks, on_close, before_close,
  read_locked, run_filters, write, write_blocking, write_error, begin_close, close_round,
  finish_close, is_closed,
}

module _ (T E : Type 0) where
  -- `todo` holds the callbacks that the closing goroutine has yet to call in its round; `refused`
  -- counts the readers that have yet to call Close for data that a filter refused.
  pub record Machine : Type 0 where
    pub stream : Stream T E
    pub todo : Option Callbacks
    pub refused : ℕ

  pub data Op : Type 0 where
    add_filter : (T → Option E) → Op
    add_on_close add_before_close : ℕ → Callbacks → Op
    reads : Op
    writes blocking_writes : T → Op
    writes_error : E → Op
    closes : Option E → Op
    closes_refused : Op
    closer : Op

  -- What a client sees of a step.
  pub data Event : Type 0 where
    accepted : T → Event
    got : T → Event
    got_refused : T → E → Event
    got_empty : Event
    got_error : E → Event
    quiet : Event

module _ {T E : Type 0} where
  -- The start of a close by some goroutine, which goes on as the closing one if it comes first.
  pub start_close : Option E → Machine T E → Machine T E
  unfolding begin_close
  start_close e m =
      let (r, more) = begin_close e m.stream in
      elim more [
        | none ↦ record m { stream = r }
        | some cs ↦ record m { stream = r; todo = some cs }
      ]

  -- Read: the locked part and the filters, which were copied under the lock. The Close that a refused
  -- entry leads to is a step of its own, `closes_refused`.
  pub step_read : Machine T E → Machine T E × Event T E
  unfolding read_locked run_filters
  step_read m =
      let (r, result) = read_locked m.stream in
      let m' = record m { stream = r } in
      elim result [
        | data_read x ↦ elim (run_filters r.filters x) [
          | none ↦ (m', got x)
          | some e ↦ (record m' { refused = suc m.refused }, got_refused x e)
        ]
        | filtered x e ↦ (m', quiet)
        | failed e ↦ (m', got_error e)
        | empty ↦ (m', got_empty)
      ]

  pub write_event : T → WriteResult → Event T E
  write_event x written = accepted x
  write_event x dropped = quiet
  write_event x queue_full = quiet

  pub close_refused : Machine T E → Machine T E
  unfolding start_close
  close_refused m = elim m.refused [
    | zero ↦ m
    | suc n ↦ start_close none (record m { refused = n })
  ]

  -- The closing goroutine calls its next callback, turns to its next round, or, when it has closed
  -- the stream, closes the channel `done`.
  pub step_closer : Machine T E → Machine T E
  unfolding close_round run_callbacks finish_close
  step_closer m = elim m.todo [
    | none ↦ if is_closed m.stream.state then record m { stream = finish_close m.stream } else m
    | some cs ↦ elim cs [
      | done ↦ let (r, more) = close_round m.stream in record m { stream = r; todo = more }
      | call l c rest ↦ record m {
        stream = run_callbacks (call l c done) m.stream;
        todo = some rest;
      }
    ]
  ]

  pub step : Op T E → Machine T E → Machine T E × Event T E
  unfolding filter on_close before_close step_read write write_blocking write_error start_close
      step_closer write_event close_refused
  step (add_filter f) m = (record m { stream = filter f m.stream }, quiet)
  step (add_on_close l c) m = (record m { stream = on_close l c m.stream }, quiet)
  step (add_before_close l c) m = (record m { stream = before_close l c m.stream }, quiet)
  step reads m = step_read m
  step (writes x) m =
      let (r, result) = write x m.stream in (record m { stream = r }, write_event x result)
  step (blocking_writes x) m = elim (write_blocking x m.stream) [
    | none ↦ (m, quiet)
    | some (r, result) ↦ (record m { stream = r }, write_event x result)
  ]
  step (writes_error e) m = (record m { stream = write_error e m.stream }, quiet)
  step (closes e) m = (start_close e m, quiet)
  step closes_refused m = (close_refused m, quiet)
  step closer m = (step_closer m, quiet)

  pub run : List (Op T E) → Machine T E → Machine T E
  unfolding step
  run [] m = m
  run (o ∷ os) m = run os (step o m).0

  pub events : List (Op T E) → Machine T E → List (Event T E)
  unfolding step
  events [] m = []
  events (o ∷ os) m = (step o m).1 ∷ events os (step o m).0

  pub new_machine : ℕ → Machine T E
  unfolding new_stream
  new_machine max = record { stream = new_stream max; todo = none; refused = 0 }
