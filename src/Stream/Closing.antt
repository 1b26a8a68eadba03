-- ===== src/Stream/Closing.antt =====
-- Closing a stream: which callbacks are called, how often, and the end of the loop.
use dify_plugin_daemon.Common.{
  ℕ, zero, suc, ◌+◌, ◌≤◌, ◌<◌, ◌≡◌, refl, ◌∙◌, true, Option, none, some, List, [], ◌∷◌, ◌++◌, arith,
  length, length-append, ◌⊎◌, inl, inr, ◌==◌, if◌then◌else◌,
}
use dify_plugin_daemon.Stream.{
  State, opened, closing, closed, Callbacks, done, call, append, size, Stream, run_callbacks,
  begin_close, close_loop, close,
}

pub size-append : (cs ds : Callbacks) → size (append cs ds) ≡ size cs + size ds
unfolding size append
size-append done ds = omega arith
size-append (call l c cs) ds = omega (arith, size-append cs ds)

-- How often the callback `k` is in a list of calls, and how often it is called in the end by a list of
-- callbacks and what they register.
abbrev pub same_number : ℕ → ℕ → ℕ
same_number k l = if l == k then 1 else 0

abbrev pub times : ℕ → List ℕ → ℕ
times k [] = 0
times k (l ∷ ls) = same_number k l + times k ls

abbrev pub occurs : ℕ → Callbacks → ℕ
occurs k done = 0
occurs k (call l c cs) = same_number k l + occurs k c + occurs k cs

times-append : (k : ℕ) (ls ms : List ℕ) → times k (ls ++ ms) ≡ times k ls + times k ms
times-append k [] ms = omega arith
times-append k (l ∷ ls) ms = omega (arith, times-append k ls ms)

occurs-append : (k : ℕ) (cs ds : Callbacks) → occurs k (append cs ds) ≡ occurs k cs + occurs k ds
unfolding append
occurs-append k done ds = omega arith
occurs-append k (call l c cs) ds = omega (arith, occurs-append k cs ds)

-- The first option that is given.
abbrev pub or_else : {A : Type 0} → Option A → Option A → Option A
or_else (some a) o = some a
or_else none o = o

State-cases : (s : State) → (s ≡ opened) ⊎ (s ≡ closing) ⊎ (s ≡ closed)
State-cases opened = inl refl
State-cases closing = inr (inl refl)
State-cases closed = inr (inr refl)

module _ {T E : Type 0} where
  -- The calls made and the calls to come.
  abbrev pub work : Stream T E → ℕ
  work r = length r.log + size r.on_close

  -- What stays as it is while callbacks run.
  abbrev note : ℕ → Stream T E → Stream T E
  note l r = record r { log = r.log ++ l ∷ [] }

  abbrev keep : ℕ → Callbacks → Stream T E → Stream T E
  keep l c r = record r { log = r.log ++ l ∷ []; on_close = append r.on_close c }

  run_callbacks-closing :
      (l : ℕ) (c cs : Callbacks) (r : Stream T E)
      → r.state ≡ closing
      → run_callbacks (call l c cs) r ≡ run_callbacks cs (keep l c r)
  unfolding run_callbacks
  run_callbacks-closing l c cs r h = ground arith

  run_callbacks-closed :
      (l : ℕ) (c cs : Callbacks) (r : Stream T E)
      → r.state ≡ closed
      → (run_callbacks cs (run_callbacks c (note l r))).on_close ≡ r.on_close
      → (run_callbacks (call l c cs) r).on_close ≡ r.on_close
  unfolding run_callbacks
  run_callbacks-closed l c cs r h now = ground arith

  run_callbacks_cases {ℓ} :
      (P : Stream T E → Type ℓ) (l : ℕ) (c cs : Callbacks) (r : Stream T E)
      → P (run_callbacks cs (keep l c r))
      → P (run_callbacks cs (run_callbacks c (note l r)))
      → P (run_callbacks (call l c cs) r)
  unfolding run_callbacks
  run_callbacks_cases P l c cs r later now = elim (State-cases r.state) [
    | inl h ↦ rw (h, run_callbacks) later
    | inr (inl h) ↦ rw (h, run_callbacks) later
    | inr (inr h) ↦ rw (h, run_callbacks) now
  ]

  pub record SameRest (r r' : Stream T E) : Type 0 where
    pub q : r'.q ≡ r.q
    pub state : r'.state ≡ r.state
    pub is_done : r'.is_done ≡ r.is_done
    pub err : r'.err ≡ r.err
    pub before : r'.before_close ≡ r.before_close
    pub max : r'.max ≡ r.max
    pub filters : r'.filters ≡ r.filters

  SameRest-trans : (r s t : Stream T E) → SameRest r s → SameRest s t → SameRest r t
  SameRest-trans r s t h k = record {
    q = k.q ∙ h.q;
    state = k.state ∙ h.state;
    is_done = k.is_done ∙ h.is_done;
    err = k.err ∙ h.err;
    before = k.before ∙ h.before;
    max = k.max ∙ h.max;
    filters = k.filters ∙ h.filters;
  }

  SameRest-log :
      (r : Stream T E) (l : List ℕ) (c : Callbacks)
      → SameRest r (record r { log = l; on_close = c })
  SameRest-log r l c = record {
    q = refl;
    state = refl;
    is_done = refl;
    err = refl;
    before = refl;
    max = refl;
    filters = refl;
  }

  -- Callbacks change nothing but the calls made and the calls to come.
  pub run_callbacks-SameRest : (cs : Callbacks) (r : Stream T E) → SameRest r (run_callbacks cs r)
  unfolding run_callbacks
  run_callbacks-SameRest done r = SameRest-log r r.log r.on_close
  run_callbacks-SameRest (call l c cs) r =
      run_callbacks_cases (SameRest r) l c cs r
        (SameRest-trans r (keep l c r) _ (SameRest-log r _ _)
          (run_callbacks-SameRest cs (keep l c r)))
        (SameRest-trans r (note l r) _ (SameRest-log r _ _) (
          SameRest-trans (note l r) (run_callbacks c (note l r)) _
            (run_callbacks-SameRest c (note l r))
            (run_callbacks-SameRest cs (run_callbacks c (note l r)))))

  -- A list of callbacks adds its size to the calls made and to come.
  pub work-run_callbacks :
      (cs : Callbacks) (r : Stream T E) → work (run_callbacks cs r) ≡ work r + size cs
  unfolding run_callbacks size
  work-run_callbacks done r = omega arith
  work-run_callbacks (call l c cs) r =
      run_callbacks_cases (λ s. work s ≡ work r + (1 + size c + size cs)) l c cs r
        (omega (
          arith,
          work-run_callbacks cs (keep l c r),
          length-append r.log (l ∷ []),
          size-append r.on_close c,
        ))
        (omega (
          arith,
          work-run_callbacks cs (run_callbacks c (note l r)),
          work-run_callbacks c (note l r),
          length-append r.log (l ∷ []),
        ))

  -- The calls of one callback that were made and that are to come.
  abbrev work_of : ℕ → Stream T E → ℕ
  work_of k r = times k r.log + occurs k r.on_close

  work_of-run_callbacks :
      (k : ℕ) (cs : Callbacks) (r : Stream T E)
      → work_of k (run_callbacks cs r) ≡ work_of k r + occurs k cs
  unfolding run_callbacks
  work_of-run_callbacks k done r = omega arith
  work_of-run_callbacks k (call l c cs) r =
      run_callbacks_cases
        (λ s. work_of k s ≡ work_of k r + (same_number k l + occurs k c + occurs k cs)) l c cs r
        (omega (
          arith,
          work_of-run_callbacks k cs (keep l c r),
          times-append k r.log (l ∷ []),
          occurs-append k r.on_close c,
        ))
        (omega (
          arith,
          work_of-run_callbacks k cs (run_callbacks c (note l r)),
          work_of-run_callbacks k c (note l r),
          times-append k r.log (l ∷ []),
        ))

  -- A closed stream keeps no callback for later.
  pub on_close-run_callbacks :
      (cs : Callbacks) (r : Stream T E)
      → r.state ≡ closed
      → (run_callbacks cs r).on_close ≡ r.on_close
  unfolding run_callbacks
  on_close-run_callbacks done r h = refl
  on_close-run_callbacks (call l c cs) r h = run_callbacks-closed l c cs r h (
      on_close-run_callbacks cs (run_callbacks c (note l r))
        ((run_callbacks-SameRest c (note l r)).state ∙ h)
      ∙ on_close-run_callbacks c (note l r) h)

  log-run_callbacks :
      (cs : Callbacks) (r : Stream T E)
      → r.state ≡ closing
      → length r.log ≤ length (run_callbacks cs r).log
  unfolding run_callbacks
  log-run_callbacks done r h = omega arith
  log-run_callbacks (call l c cs) r h =
      rw (run_callbacks-closing l c cs r h)
        (omega (arith, log-run_callbacks cs (keep l c r) h, length-append r.log (l ∷ [])))

  log-run_callbacks_lt :
      (l : ℕ) (c cs : Callbacks) (r : Stream T E)
      → r.state ≡ closing
      → length r.log < length (run_callbacks (call l c cs) r).log
  log-run_callbacks_lt l c cs r h =
      rw (run_callbacks-closing l c cs r h)
        (omega (arith, log-run_callbacks cs (keep l c r) h, length-append r.log (l ∷ [])))

  -- The stream is closed, and each callback `k` has been called `n k` times in all.
  pub record IsClosed (r : Stream T E) (n : ℕ → ℕ) (r' : Stream T E) : Type 0 where
    pub state : r'.state ≡ closed
    pub is_done : r'.is_done ≡ true
    pub none_left : r'.on_close ≡ done
    pub calls : (k : ℕ) → times k r'.log ≡ n k
    pub q : r'.q ≡ r.q
    pub err : r'.err ≡ r.err

  close_loop-done :
      (fuel : ℕ) (r : Stream T E)
      → r.on_close ≡ done
      → close_loop (suc fuel) r ≡ record r { state = closed; is_done = true }
  unfolding close_loop
  close_loop-done fuel r e = ground arith

  close_loop-call :
      (fuel l : ℕ) (c cs : Callbacks) (r : Stream T E)
      → r.on_close ≡ call l c cs
      → close_loop (suc fuel) r
        ≡ close_loop fuel (run_callbacks (call l c cs) (record r { on_close = done }))
  unfolding close_loop
  close_loop-call fuel l c cs r e = ground arith

  close_loop-IsClosed :
      (fuel : ℕ) (r : Stream T E) (cs : Callbacks)
      → r.on_close ≡ cs
      → r.state ≡ closing
      → size cs < fuel
      → IsClosed r (λ k. times k r.log + occurs k cs) (close_loop fuel r)
  unfolding size
  close_loop-IsClosed zero r cs e h lt = elim lt [ ]
  close_loop-IsClosed (suc fuel) r done e h lt = rw (close_loop-done fuel r e) (record {
    state = refl;
    is_done = refl;
    none_left = e;
    calls = λ k. omega arith;
    q = refl;
    err = refl;
  })
  close_loop-IsClosed (suc fuel) r (call l c cs) e h lt =
      let r1 = record r { on_close = done } in
      let r2 = run_callbacks (call l c cs) r1 in
      let same = run_callbacks-SameRest (call l c cs) r1 in
      let w = work-run_callbacks (call l c cs) r1 in
      let ih =
        close_loop-IsClosed fuel r2 r2.on_close refl (same.state ∙ h)
          (omega (arith, w, log-run_callbacks_lt l c cs r1 h)) in
      rw (close_loop-call fuel l c cs r e) (record {
        state = ih.state;
        is_done = ih.is_done;
        none_left = ih.none_left;
        calls = λ k. omega (arith, ih.calls k, work_of-run_callbacks k (call l c cs) r1);
        q = ih.q ∙ same.q;
        err = ih.err ∙ same.err;
      })

  close_opened :
      (x : Option E) (r : Stream T E)
      → r.state ≡ opened
      → close x r
        ≡ close_loop
            (suc (size r.before_close + size r.on_close))
            (run_callbacks r.before_close (begin_close x r).0)
  unfolding close
  close_opened x r h = ground arith

  begin_close_opened :
      (x : Option E) (r : Stream T E)
      → r.state ≡ opened
      → (begin_close x r).0 ≡ record r { state = closing; err = or_else x r.err }
  unfolding begin_close
  begin_close_opened x r h = ground arith

  -- Close of an open stream whose callbacks register finitely many others: each callback is called
  -- just as often as it is registered, by BeforeClose, by OnClose or by another callback; the stream
  -- is then closed, its `done` channel too, no callback is left, the data stays, and the given error,
  -- if any, replaces the old.
  pub close-IsClosed :
      (x : Option E) (r : Stream T E)
      → r.state ≡ opened
      → IsClosed
          (record r { err = or_else x r.err })
          (λ k. times k r.log + occurs k r.before_close + occurs k r.on_close)
          (close x r)
  close-IsClosed x r h =
      let r0 = record r { state = closing; err = or_else x r.err } in
      let r1 = run_callbacks r.before_close r0 in
      let same = run_callbacks-SameRest r.before_close r0 in
      let w = work-run_callbacks r.before_close r0 in
      let ih =
        close_loop-IsClosed (suc (size r.before_close + size r.on_close)) r1 r1.on_close refl
          same.state (omega (arith, w, log-run_callbacks r.before_close r0 refl)) in
      rw (close_opened x r h) (
        rw (begin_close_opened x r h) (record {
          state = ih.state;
          is_done = ih.is_done;
          none_left = ih.none_left;
          calls = λ k. omega (arith, ih.calls k, work_of-run_callbacks k r.before_close r0);
          q = ih.q ∙ same.q;
          err = ih.err ∙ same.err;
        }))
