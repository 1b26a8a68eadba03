-- ===== src/Stream/Machine/Calls.antt =====
-- How often the callbacks of a stream are called, under any interleaving.
use dify_plugin_daemon.Common.{
  ℕ, suc, ◌+◌, ◌≡◌, refl, Option, none, some, List, [], ◌∷◌, arith, length,
}
use dify_plugin_daemon.Stream.{
  State, opened, closing, closed, Callbacks, done, call, size, Stream, on_close,
}
use dify_plugin_daemon.Stream.Closing.{
  run_callbacks-SameRest, work, work-run_callbacks, size-append, on_close-run_callbacks,
}
use dify_plugin_daemon.Stream.Machine.{
  Machine, Op, add_filter, add_on_close, add_before_close, reads, writes, blocking_writes,
  writes_error, closes, closes_refused, closer, step, run, new_machine, step_closer, step_read,
}
use dify_plugin_daemon.Stream.Machine.Invariant.{Inv, step-Inv, on_close-SameRest}

-- The calls that registering a callback leads to; BeforeClose counts on an open stream only.
abbrev pub registered : {T E : Type 0} → Op T E → State → ℕ
registered (add_filter f) s = 0
registered (add_on_close l c) s = suc (size c)
registered (add_before_close l c) opened = suc (size c)
registered (add_before_close l c) closing = 0
registered (add_before_close l c) closed = 0
registered reads s = 0
registered (writes x) s = 0
registered (blocking_writes x) s = 0
registered (writes_error e) s = 0
registered (closes e) s = 0
registered closes_refused s = 0
registered closer s = 0

abbrev todo_size : Option Callbacks → ℕ
todo_size none = 0
todo_size (some cs) = size cs

abbrev before_size : State → Callbacks → ℕ
before_size opened cs = size cs
before_size closing cs = 0
before_size closed cs = 0

module _ {T E : Type 0} where
  pub registered_all : List (Op T E) → Machine T E → ℕ
  registered_all [] m = 0
  registered_all (o ∷ os) m = registered o m.stream.state + registered_all os (step o m).0

  -- The calls made, and the calls still owed to the callbacks that were registered.
  abbrev owed : Machine T E → ℕ
  owed m =
      length m.stream.log
      + size m.stream.on_close
      + todo_size m.todo
      + before_size m.stream.state m.stream.before_close

  -- A closed stream keeps no callback.
  record Kept (m : Machine T E) : Type 0 where
    inv : Inv m
    none_left : m.stream.state ≡ closed → m.stream.on_close ≡ done

  work-on_close :
      (l : ℕ) (c : Callbacks) (r : Stream T E) → work (on_close l c r) ≡ work r + suc (size c)
  unfolding on_close size
  work-on_close l c r =
      ground (arith, work-run_callbacks (call l c done) r, size-append r.on_close (call l c done))

  owed-read : (m : Machine T E) → Inv m → owed (step_read m).0 ≡ owed m
  unfolding step_read
  owed-read m v = ground arith

  owed-closer :
      (t : Option Callbacks) (m : Machine T E) → m.todo ≡ t → Inv m → owed (step_closer m) ≡ owed m
  unfolding step_closer size
  owed-closer none m e v = ground arith
  owed-closer (some done) m e v = ground arith
  owed-closer (some (call l c cs)) m e v = ground (
    arith,
    work-run_callbacks (call l c done) m.stream,
    run_callbacks-SameRest (call l c done) m.stream,
  )

  owed-step :
      (o : Op T E) (m : Machine T E)
      → Inv m
      → owed (step o m).0 ≡ owed m + registered o m.stream.state
  unfolding step size
  owed-step (add_filter f) m v = ground arith
  owed-step (add_on_close l c) m v =
      ground (arith, work-on_close l c m.stream, on_close-SameRest l c m.stream)
  owed-step (add_before_close l c) m v =
      ground (arith, size-append m.stream.before_close (call l c done))
  owed-step reads m v = omega (arith, owed-read m v)
  owed-step (writes x) m v = ground arith
  owed-step (blocking_writes x) m v = ground arith
  owed-step (writes_error e) m v = ground arith
  owed-step (closes e) m v = ground arith
  owed-step closes_refused m v = ground arith
  owed-step closer m v = omega (arith, owed-closer m.todo m refl v)

  closer-none_left :
      (t : Option Callbacks) (m : Machine T E)
      → m.todo ≡ t
      → Kept m
      → (step_closer m).stream.state ≡ closed
      → (step_closer m).stream.on_close ≡ done
  unfolding step_closer
  closer-none_left none m e v = ground arith
  closer-none_left (some done) m e v = ground arith
  closer-none_left (some (call l c cs)) m e v =
      ground (arith, run_callbacks-SameRest (call l c done) m.stream)

  on_close-none_left :
      (l : ℕ) (c : Callbacks) (r : Stream T E)
      → (r.state ≡ closed → r.on_close ≡ done)
      → (on_close l c r).state ≡ closed
      → (on_close l c r).on_close ≡ done
  unfolding on_close
  on_close-none_left l c r h =
      ground
        (arith, run_callbacks-SameRest (call l c done) r, on_close-run_callbacks (call l c done) r)

  step-none_left :
      (o : Op T E) (m : Machine T E)
      → Kept m
      → (step o m).0.stream.state ≡ closed
      → (step o m).0.stream.on_close ≡ done
  unfolding step
  step-none_left (add_filter f) m v = ground arith
  step-none_left (add_on_close l c) m v = on_close-none_left l c m.stream v.none_left
  step-none_left (add_before_close l c) m v = ground arith
  step-none_left reads m v = ground arith
  step-none_left (writes x) m v = ground arith
  step-none_left (blocking_writes x) m v = ground arith
  step-none_left (writes_error e) m v = ground arith
  step-none_left (closes e) m v = ground arith
  step-none_left closes_refused m v = ground arith
  step-none_left closer m v = closer-none_left m.todo m refl v

  owed-run :
      (os : List (Op T E)) (m : Machine T E)
      → Kept m
      → Kept (run os m) × (owed (run os m) ≡ owed m + registered_all os m)
  unfolding run registered_all
  owed-run [] m v = (v, omega arith)
  owed-run (o ∷ os) m v =
      let (kept, e) =
        owed-run os (step o m).0
          (record { inv = step-Inv o m v.inv; none_left = step-none_left o m v }) in
      (kept, omega (arith, e, owed-step o m v.inv))

  -- Whatever methods are called on a new stream, in any interleaving with the closing goroutine:
  -- once the stream is closed, the calls of callbacks are just as many as were registered, each with
  -- all that it registers itself, by OnClose at any time or by BeforeClose on the open stream.
  pub calls-run :
      (max : ℕ) (os : List (Op T E))
      → (run os (new_machine max)).stream.state ≡ closed
      → length (run os (new_machine max)).stream.log ≡ registered_all os (new_machine max)
  unfolding new_machine size
  calls-run max os h =
      let (kept, e) = owed-run os (new_machine max) (ground arith) in
      ground (arith, e, kept.none_left h, kept.inv.busy)
