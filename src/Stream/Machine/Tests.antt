-- ===== src/Stream/Machine/Tests.antt =====
-- The stream at concrete inputs.
use dify_plugin_daemon.Common.{
  ◌+◌, ℕ, none, some, List, [], ◌∷◌, ◌++◌, ◌≡◌, refl, length, true, false,
}
use dify_plugin_daemon.Stream.{
  opened, done, call, Stream, new_stream, append, run_callbacks, on_close, before_close, signal,
  read_locked, run_filters, write, begin_close, close_round, finish_close, close,
}
use dify_plugin_daemon.Stream.Closing.{close-IsClosed, IsClosed, times, occurs}
use dify_plugin_daemon.Stream.Machine.{
  Op, add_on_close, add_before_close, reads, writes, closes, closer, Machine, run, events,
  new_machine, step, step_read, step_closer, start_close, write_event,
}
use dify_plugin_daemon.Stream.Machine.Calls.{registered_all, calls-run}
use dify_plugin_daemon.Stream.Machine.Order.{data_in, data_out, run-new_machine-fifo}

abbrev busy : Stream ℕ ℕ
busy = record {
  q = 4 ∷ [];
  sig = true;
  is_done = false;
  state = opened;
  max = 2;
  on_close = call 1 (call 2 done done) done;
  before_close = call 3 done done;
  filters = [];
  err = none;
  log = [];
}

abbrev broken : Machine ℕ ℕ
broken = record { stream = record busy { q = []; err = some 7 }; todo = none; refused = 0 }

abbrev calls : List (Op ℕ ℕ)
calls =
    add_before_close 1 done
    ∷ add_on_close 2 (call 3 done done)
    ∷ writes 5
    ∷ writes 6
    ∷ writes 7
    ∷ reads
    ∷ closes none
    ∷ closer
    ∷ closer
    ∷ closer
    ∷ closer
    ∷ closer
    ∷ closer
    ∷ closer
    ∷ []

close-IsClosed_example :
    IsClosed
      (record busy { err = some 9 })
      (λ k. times k [] + occurs k (call 3 done done) + occurs k (call 1 (call 2 done done) done))
      (close (some 9) busy)
close-IsClosed_example = close-IsClosed (some 9) busy refl

run-new_machine-fifo_example :
    data_in (events calls (new_machine 2))
    ≡ data_out (events calls (new_machine 2)) ++ (run calls (new_machine 2)).stream.q
run-new_machine-fifo_example = run-new_machine-fifo 2 calls

calls-run_example :
    length (run calls (new_machine 2)).stream.log ≡ registered_all calls (new_machine 2)
unfolding run step new_machine new_stream on_close before_close step_read write start_close
    begin_close step_closer close_round finish_close run_callbacks append write_event read_locked
    run_filters signal
calls-run_example = calls-run 2 calls refl
