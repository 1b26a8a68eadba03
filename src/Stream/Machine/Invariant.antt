-- ===== src/Stream/Machine/Invariant.antt =====
-- What holds of a stream between any two critical sections.
use dify_plugin_daemon.Common.{
  ℕ, ◌≤◌, ◌≡◌, refl, true, Option, none, some, [], ◌∷◌, arith, length, length-append,
}
use dify_plugin_daemon.Stream.{
  Callbacks, done, call, Stream, on_close, write, closed, is_closing, is_some,
}
use dify_plugin_daemon.Stream.Closing.{SameRest, run_callbacks-SameRest}
use dify_plugin_daemon.Stream.Machine.{
  Machine, Op, add_filter, add_on_close, add_before_close, reads, writes, blocking_writes,
  writes_error, closes, closes_refused, closer, step, step_closer, step_read,
}

module _ {T E : Type 0} where
  -- The queue is within its bound, the `done` channel is closed only when the stream is, and a
  -- goroutine is closing it exactly while it is `closing`.
  pub record Inv (m : Machine T E) : Type 0 where
    pub bounded : length m.stream.q ≤ m.stream.max
    pub done_closed : m.stream.is_done ≡ true → m.stream.state ≡ closed
    pub busy : is_some m.todo ≡ is_closing m.stream.state

  pub on_close-SameRest : (l : ℕ) (c : Callbacks) (r : Stream T E) → SameRest r (on_close l c r)
  unfolding on_close
  on_close-SameRest l c r = ground (arith, run_callbacks-SameRest (call l c done) r)

  Inv-SameRest :
      (m : Machine T E) (r : Stream T E)
      → SameRest m.stream r
      → Inv m
      → Inv (record m { stream = r })
  Inv-SameRest m r h v = ground arith

  step_read-Inv : (m : Machine T E) → Inv m → Inv (step_read m).0
  unfolding step_read
  step_read-Inv m v = ground arith

  step_closer-Inv :
      (t : Option Callbacks) (m : Machine T E) → m.todo ≡ t → Inv m → Inv (step_closer m)
  unfolding step_closer
  step_closer-Inv none m e v = ground arith
  step_closer-Inv (some done) m e v = ground arith
  step_closer-Inv (some (call l c cs)) m e v =
      ground (arith, run_callbacks-SameRest (call l c done) m.stream)

  write-Inv : (x : T) (m : Machine T E) → Inv m → Inv (record m { stream = (write x m.stream).0 })
  unfolding write
  write-Inv x m v = ground (arith, length-append m.stream.q (x ∷ []))

  pub step-Inv : (o : Op T E) (m : Machine T E) → Inv m → Inv (step o m).0
  unfolding step
  step-Inv (add_filter f) m v = ground arith
  step-Inv (add_on_close l c) m v = Inv-SameRest m _ (on_close-SameRest l c m.stream) v
  step-Inv (add_before_close l c) m v = ground arith
  step-Inv reads m v = step_read-Inv m v
  step-Inv (writes x) m v = write-Inv x m v
  step-Inv (blocking_writes x) m v = ground (arith, length-append m.stream.q (x ∷ []))
  step-Inv (writes_error e) m v = ground arith
  step-Inv (closes e) m v = ground arith
  step-Inv closes_refused m v = ground arith
  step-Inv closer m v = step_closer-Inv m.todo m refl v
