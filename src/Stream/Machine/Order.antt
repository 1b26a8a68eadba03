-- ===== src/Stream/Machine/Order.antt =====
-- The stream as a queue: what is read is what was written, in order, under any interleaving.
use dify_plugin_daemon.Common.{
  ℕ, ◌≡◌, refl, sym, ap, ◌∙◌, Option, none, some, List, [], ◌∷◌, ◌++◌, append_assoc, append-nil,
  arith,
}
use dify_plugin_daemon.Stream.{Callbacks, done, call}
use dify_plugin_daemon.Stream.Closing.{run_callbacks-SameRest}
use dify_plugin_daemon.Stream.Machine.{
  Machine, Op, add_filter, add_on_close, add_before_close, reads, writes, blocking_writes,
  writes_error, closes, closes_refused, closer, Event, accepted, got, got_refused, got_empty,
  got_error, quiet, step, run, events, new_machine, step_closer, step_read,
}
use dify_plugin_daemon.Stream.Machine.Invariant.{on_close-SameRest}

module _ {T E : Type 0} where
  -- The data that writers hand over, and the data that readers get.
  abbrev pub data_in : List (Event T E) → List T
  data_in [] = []
  data_in (accepted x ∷ es) = x ∷ data_in es
  data_in (got x ∷ es) = data_in es
  data_in (got_refused x e ∷ es) = data_in es
  data_in (got_empty ∷ es) = data_in es
  data_in (got_error e ∷ es) = data_in es
  data_in (quiet ∷ es) = data_in es

  abbrev pub data_out : List (Event T E) → List T
  data_out [] = []
  data_out (accepted x ∷ es) = data_out es
  data_out (got x ∷ es) = x ∷ data_out es
  data_out (got_refused x e ∷ es) = x ∷ data_out es
  data_out (got_empty ∷ es) = data_out es
  data_out (got_error e ∷ es) = data_out es
  data_out (quiet ∷ es) = data_out es

  -- One step writes at the back of the queue, or reads at its front.
  data Moves (xs ys : List T) : Event T E → Type 0 where
    wrote : (x : T) → ys ≡ xs ++ x ∷ [] → Moves xs ys (accepted x)
    took : (x : T) → xs ≡ x ∷ ys → Moves xs ys (got x)
    took_refused : (x : T) (e : E) → xs ≡ x ∷ ys → Moves xs ys (got_refused x e)
    stays_empty : ys ≡ xs → Moves xs ys got_empty
    stays : ys ≡ xs → Moves xs ys quiet
    stays_error : (e : E) → ys ≡ xs → Moves xs ys (got_error e)

  step_read-Moves : (m : Machine T E) → Moves m.stream.q (step_read m).0.stream.q (step_read m).1
  unfolding step_read
  step_read-Moves m = grind (arith, wrote, took, took_refused, stays, stays_empty, stays_error)

  step_closer-q :
      (t : Option Callbacks) (m : Machine T E) → m.todo ≡ t → (step_closer m).stream.q ≡ m.stream.q
  unfolding step_closer
  step_closer-q none m e = ground arith
  step_closer-q (some done) m e = ground arith
  step_closer-q (some (call l c cs)) m e =
      ground (arith, run_callbacks-SameRest (call l c done) m.stream)

  step-Moves : (o : Op T E) (m : Machine T E) → Moves m.stream.q (step o m).0.stream.q (step o m).1
  unfolding step
  step-Moves (add_filter f) m = stays (ground arith)
  step-Moves (add_on_close l c) m = stays (on_close-SameRest l c m.stream).q
  step-Moves (add_before_close l c) m = stays (ground arith)
  step-Moves reads m = step_read-Moves m
  step-Moves (writes x) m = grind (arith, wrote, stays)
  step-Moves (blocking_writes x) m = grind (arith, wrote, stays)
  step-Moves (writes_error e) m = stays (ground arith)
  step-Moves (closes e) m = stays (ground arith)
  step-Moves closes_refused m = stays (ground arith)
  step-Moves closer m = stays (step_closer-q m.todo m refl)

  Moves-data :
      (xs ys zs : List T) (e : Event T E) (es : List (Event T E))
      → Moves xs ys e
      → ys ++ data_in es ≡ data_out es ++ zs
      → xs ++ data_in (e ∷ es) ≡ data_out (e ∷ es) ++ zs
  Moves-data xs ys zs (accepted x) es (wrote x' p) h =
      sym (append_assoc xs (x ∷ []) (data_in es)) ∙ (ap (λ l. l ++ data_in es) (sym p) ∙ h)
  Moves-data xs ys zs (got x) es (took x' p) h = ap (λ l. l ++ data_in es) p ∙ ap (◌∷◌ x) h
  Moves-data xs ys zs (got_refused x e) es (took_refused x' e' p) h =
      ap (λ l. l ++ data_in es) p ∙ ap (◌∷◌ x) h
  Moves-data xs ys zs got_empty es (stays_empty p) h = ap (λ l. l ++ data_in es) (sym p) ∙ h
  Moves-data xs ys zs quiet es (stays p) h = ap (λ l. l ++ data_in es) (sym p) ∙ h
  Moves-data xs ys zs (got_error x) es (stays_error x' p) h = ap (λ l. l ++ data_in es) (sym p) ∙ h

  data-run :
      (os : List (Op T E)) (m : Machine T E)
      → m.stream.q ++ data_in (events os m) ≡ data_out (events os m) ++ (run os m).stream.q
  unfolding run events
  data-run [] m = append-nil m.stream.q
  data-run (o ∷ os) m =
      Moves-data m.stream.q (step o m).0.stream.q _ (step o m).1 _ (step-Moves o m)
        (data-run os (step o m).0)

  -- Whatever methods are called on a new stream, in any interleaving: what the writers handed over is
  -- what the readers got, in the same order, followed by what is still in the queue.
  pub run-new_machine-fifo :
      (max : ℕ) (os : List (Op T E))
      → data_in (events os (new_machine max))
        ≡ data_out (events os (new_machine max)) ++ (run os (new_machine max)).stream.q
  unfolding new_machine
  run-new_machine-fifo max os = data-run os (new_machine max)
