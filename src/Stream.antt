-- ===== src/Stream.antt =====
-- The bounded stream between a plugin and its reader: pkg/utils/stream/stream.go.
-- A method is a function from the stream to the new stream and its result; each of its critical
-- sections is one function, so that the closing goroutine can be interleaved with others (Machine).
-- A close callback is known by a number and by the callbacks that it registers itself with OnClose;
-- `log` lists the calls made so far. A callback registers finitely many others: one that always
-- registers itself again, with which the loop of close never ends, is not a value of the type. Nor
-- is one that reads the stream; every other method does nothing in a callback, since callbacks run
-- only when the stream is no longer open. The compare-and-swap at the start of close and the critical
-- section after it are one function: in between a stream differs by its state only, which each method
-- looks at. A filter is a function of the data alone.
pub mod Closing
pub mod Machine
use dify_plugin_daemon.Common.{
  ℕ, zero, suc, ◌+◌, Bool, true, false, not, ◌&&◌, ◌||◌, Option, none, some, List, [], ◌∷◌, ◌++◌,
  length, leb, ltb, if◌then◌else◌,
}

-- streamStateOpen, streamStateClosing, streamStateClosed
pub data State : Type 0 where
  opened closing closed : State

-- A list of callbacks: the number of the first one, what it registers, and the others.
pub data Callbacks : Type 0 where
  done : Callbacks
  call : ℕ → Callbacks → Callbacks → Callbacks

pub append : Callbacks → Callbacks → Callbacks
append done ds = ds
append (call l c cs) ds = call l c (append cs ds)

-- How many callbacks are called in the end.
pub size : Callbacks → ℕ
size done = 0
size (call l c cs) = 1 + size c + size cs

abbrev pub is_open : State → Bool
is_open opened = true
is_open closing = false
is_open closed = false

abbrev pub is_closing : State → Bool
is_closing opened = false
is_closing closing = true
is_closing closed = false

abbrev pub is_closed : State → Bool
is_closed opened = false
is_closed closing = false
is_closed closed = true

abbrev pub is_some : {A : Type 0} → Option A → Bool
is_some none = false
is_some (some a) = true

module _ (T E : Type 0) where
  pub record Stream : Type 0 where
    pub q : List T
    pub sig : Bool
    pub is_done : Bool
    pub state : State
    pub max : ℕ
    pub on_close : Callbacks
    pub before_close : Callbacks
    pub filters : List (T → Option E)
    pub err : Option E
    pub log : List ℕ

-- What Read returns: data, data that a filter refused, an error written to the stream, or ErrEmpty.
pub data ReadResult (T E : Type 0) : Type 0 where
  data_read : T → ReadResult T E
  filtered : T → E → ReadResult T E
  failed : E → ReadResult T E
  empty : ReadResult T E

-- What Next finds in one round: data or an error, the end, or nothing yet.
pub data NextResult : Type 0 where
  has_data ended waits : NextResult

-- What Write returns; a stream that is not open drops the data and returns nil.
pub data WriteResult : Type 0 where
  written dropped queue_full : WriteResult

module _ {T E : Type 0} where
  -- NewStream
  pub new_stream : ℕ → Stream T E
  new_stream max = record {
    q = [];
    sig = false;
    is_done = false;
    state = opened;
    max = max;
    on_close = done;
    before_close = done;
    filters = [];
    err = none;
    log = [];
  }

  -- Filter
  pub filter : (T → Option E) → Stream T E → Stream T E
  filter f r = if is_open r.state then record r { filters = r.filters ++ f ∷ [] } else r

  -- The calls of a list of callbacks, one by one. What one registers is kept for later, or called at
  -- once when the stream is closed.
  pub run_callbacks : Callbacks → Stream T E → Stream T E
  unfolding append
  run_callbacks done r = r
  run_callbacks (call l c cs) r = run_callbacks cs (elim r.state [
    | closed ↦ run_callbacks c (record r { log = r.log ++ l ∷ [] })
    | opened ↦ record r { log = r.log ++ l ∷ []; on_close = append r.on_close c }
    | closing ↦ record r { log = r.log ++ l ∷ []; on_close = append r.on_close c }
  ])

  -- OnClose of the callback `l`, which registers `c`.
  pub on_close : ℕ → Callbacks → Stream T E → Stream T E
  unfolding run_callbacks append
  on_close l c r = elim r.state [
    | closed ↦ run_callbacks (call l c done) r
    | opened ↦ record r { on_close = append r.on_close (call l c done) }
    | closing ↦ record r { on_close = append r.on_close (call l c done) }
  ]

  -- BeforeClose
  pub before_close : ℕ → Callbacks → Stream T E → Stream T E
  unfolding append
  before_close l c r =
      if is_open r.state
      then record r { before_close = append r.before_close (call l c done) }
      else r

  -- signal: the channel holds one token.
  pub signal : Stream T E → Stream T E
  signal r = record r { sig = true }

  -- One round of Next. `waits` is the select on `sig` and `done`.
  pub next : Stream T E → NextResult
  next r =
      if ltb 0 (length r.q) || (is_some r.err && not (is_closing r.state))
      then has_data
      else elim r.state [ closed ↦ ended | opened ↦ waits | closing ↦ waits ]

  -- The first error of the filters.
  pub run_filters : List (T → Option E) → T → Option E
  run_filters [] data_in = none
  run_filters (f ∷ fs) data_in = elim (f data_in) [
    | some e ↦ some e
    | none ↦ run_filters fs data_in
  ]

  -- The locked part of Read.
  pub read_locked : Stream T E → Stream T E × ReadResult T E
  read_locked r = elim r.q [
    | x ∷ xs ↦ (record r { q = xs }, data_read x)
    | [] ↦ elim r.err [
      | none ↦ (r, empty)
      | some e ↦ if is_closing r.state then (r, empty) else (record r { err = none }, failed e)
    ]
  ]

  -- Write
  pub write : T → Stream T E → Stream T E × WriteResult
  unfolding signal
  write x r =
      if is_open r.state
      then (if leb r.max (length r.q)
          then (r, queue_full)
          else (signal (record r { q = r.q ++ x ∷ [] }), written))
      else (r, dropped)

  -- WriteBlocking: `none` while it waits for space.
  pub write_blocking : T → Stream T E → Option (Stream T E × WriteResult)
  unfolding signal
  write_blocking x r =
      if is_open r.state
      then (if leb r.max (length r.q)
          then none
          else some (signal (record r { q = r.q ++ x ∷ [] }), written))
      else some (r, dropped)

  -- WriteError
  pub write_error : E → Stream T E → Stream T E
  unfolding signal
  write_error e r = if is_open r.state then signal (record r { err = some e }) else r

  -- The start of close: the compare-and-swap, the error, and the callbacks to call before the close;
  -- `none` if another close came first.
  pub begin_close : Option E → Stream T E → Stream T E × Option Callbacks
  begin_close e r =
      if is_open r.state
      then (
        record r { state = closing; err = elim e [ some x ↦ some x | none ↦ r.err ] },
        some r.before_close,
      )
      else (r, none)

  -- One turn of the loop of close: the end, before the channel `done` is closed, or the callbacks to
  -- call next.
  pub close_round : Stream T E → Stream T E × Option Callbacks
  close_round r = elim r.on_close [
    | done ↦ (record r { state = closed }, none)
    | call l c cs ↦ (record r { on_close = done }, some (call l c cs))
  ]

  -- close(r.done), which comes after the lock is released.
  pub finish_close : Stream T E → Stream T E
  finish_close r = record r { is_done = true }

  -- The loop of close. A round calls at least one callback, so that the fuel is bounded by the
  -- number of callbacks, those that callbacks register included.
  pub close_loop : ℕ → Stream T E → Stream T E
  unfolding close_round run_callbacks finish_close
  close_loop zero r = r
  close_loop (suc fuel) r =
      let (r', more) = close_round r in
      elim more [ none ↦ finish_close r' | some cs ↦ close_loop fuel (run_callbacks cs r') ]

  -- close
  pub close : Option E → Stream T E → Stream T E
  unfolding begin_close run_callbacks close_loop size
  close e r =
      let (r', more) = begin_close e r in
      elim more [
        | none ↦ r'
        | some cs ↦ close_loop (suc (size r.before_close + size r.on_close)) (run_callbacks cs r')
      ]

  -- Read
  pub read : Stream T E → Stream T E × ReadResult T E
  unfolding read_locked run_filters close
  read r =
      let (r', result) = read_locked r in
      elim result [
        | data_read x ↦ elim (run_filters r'.filters x) [
          | none ↦ (r', data_read x)
          | some e ↦ (close none r', filtered x e)
        ]
        | filtered x e ↦ (r', filtered x e)
        | failed e ↦ (r', failed e)
        | empty ↦ (r', empty)
      ]
