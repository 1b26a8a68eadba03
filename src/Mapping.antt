-- ===== src/Mapping.antt =====
-- The counted map of pkg/utils/mapping/sync.go, in which the daemon keeps its running tasks, sessions
-- and runtimes. sync.Map is a list of keys and values; every method holds the lock of the map, so
-- each is one step. The int32 counter is its pattern of bits, a number modulo 2 ^ 32. V is not an
-- interface type, as in every map of the daemon (structs, pointers to structs, bool), so that the
-- assertion of a stored value to V succeeds, a nil pointer's too. Range, which calls back, is left out.
pub mod Table
pub mod Spec
pub mod Changes
pub mod Refinement
mod Tests
use dify_plugin_daemon.Common.{
  ltb, ℤ, pos, negsuc, ℕ, ◌+◌, ◌-◌, ◌^◌, ◌%◌, Bool, true, false, Option, none, some, List, [], ◌∷◌,
  ite, if◌then◌else◌,
}

module _ {K V : Type 0} (discrete : Discrete K) where
  -- Load of sync.Map.
  unfoldable pub find : K → List (K × V) → Option V
  find k [] = none
  find k ((x, v) ∷ rows) = ite (discrete x k) (some v) (find k rows)

  -- Store of sync.Map.
  unfoldable pub insert : K → V → List (K × V) → List (K × V)
  insert k v [] = (k, v) ∷ []
  insert k v ((x, w) ∷ rows) = ite (discrete x k) ((x, v) ∷ rows) ((x, w) ∷ insert k v rows)

  -- Delete of sync.Map.
  unfoldable pub remove : K → List (K × V) → List (K × V)
  remove k [] = []
  remove k ((x, w) ∷ rows) = ite (discrete x k) rows ((x, w) ∷ remove k rows)

pub record Map (K V : Type 0) : Type 0 where
  pub len : ℕ
  pub store : List (K × V)

unfoldable pub increment : ℕ → ℕ
increment n = (n + 1) % 2 ^ 32

unfoldable pub decrement : ℕ → ℕ
decrement n = (n + (2 ^ 32 - 1)) % 2 ^ 32

-- int of an int32, which is negative from 2 ^ 31 on.
unfoldable pub int : ℕ → ℤ
int n = if ltb n (2 ^ 31) then pos n else negsuc (2 ^ 32 - 1 - n)

-- What a method returns; the type assertion of the nil that stands for a
-- missing key panics.
pub data Answer (V : Type 0) : Type 0 where
  nothing panicked : Answer V
  found : V → Bool → Answer V
  absent : Answer V
  deleted : Bool → Answer V
  size : ℤ → Answer V
  present : Bool → Answer V

abbrev pub is_some : {V : Type 0} → Option V → Bool
is_some none = false
is_some (some v) = true

-- What the methods do with the value that is loaded, if there is one, where `after` is the map that
-- they may leave.
unfoldable pub loaded : {K V : Type 0} → Option V → Map K V → Answer V × Map K V
loaded none m = (absent, m)
loaded (some v) m = (found v true, m)

unfoldable pub deleted_if :
    {K V : Type 0} → (V → Bool) → Option V → Map K V → Map K V → Answer V × Map K V
deleted_if matches none m after = (deleted false, m)
deleted_if matches (some v) m after =
    if matches v then (deleted true, after) else (deleted false, m)

unfoldable pub loaded_or_stored :
    {K V : Type 0} → V → Option V → Map K V → Map K V → Answer V × Map K V
loaded_or_stored v none m after = (found v false, after)
loaded_or_stored v (some w) m after = (found w true, m)

-- The assertion of the value panics on a nil value; what was written stays.
unfoldable pub asserted : {K V : Type 0} → Option V → Map K V → Map K V → Answer V × Map K V
asserted none failed after = (panicked, failed)
asserted (some v) failed after = (found v true, after)

module _ {K V : Type 0} (discrete : Discrete K) where
  unfoldable pub map_load : K → Map K V → Answer V × Map K V
  unfolding find loaded
  map_load k m = loaded (find discrete k m.store) m

  unfoldable pub map_store : K → V → Map K V → Answer V × Map K V
  unfolding find insert increment
  map_store k v m = (
    nothing,
    record {
      len = if is_some (find discrete k m.store) then m.len else increment m.len;
      store = insert discrete k v m.store;
    },
  )

  unfoldable pub map_delete : K → Map K V → Answer V × Map K V
  unfolding find remove decrement
  map_delete k m = (
    nothing,
    record {
      len = if is_some (find discrete k m.store) then decrement m.len else m.len;
      store = remove discrete k m.store;
    },
  )

  unfoldable pub map_delete_if : K → (V → Bool) → Map K V → Answer V × Map K V
  unfolding find remove decrement deleted_if
  map_delete_if k matches m =
      deleted_if matches (find discrete k m.store) m
        (record { len = decrement m.len; store = remove discrete k m.store })

  unfoldable pub map_load_or_store : K → V → Map K V → Answer V × Map K V
  unfolding find insert increment loaded_or_stored
  map_load_or_store k v m =
      loaded_or_stored v (find discrete k m.store) m
        (record { len = increment m.len; store = insert discrete k v m.store })

  unfoldable pub map_load_and_delete : K → Map K V → Answer V × Map K V
  unfolding find remove decrement asserted
  map_load_and_delete k m =
      asserted (find discrete k m.store) m
        (record { len = decrement m.len; store = remove discrete k m.store })

  -- A new key is stored before the panic, and no key is counted.
  unfoldable pub map_swap : K → V → Map K V → Answer V × Map K V
  unfolding find insert asserted
  map_swap k v m =
      let after = record m { store = insert discrete k v m.store } in
      asserted (find discrete k m.store) after after

  unfoldable pub map_exists : K → Map K V → Answer V × Map K V
  unfolding find
  map_exists k m = (present (is_some (find discrete k m.store)), m)

unfoldable pub map_clear : {K V : Type 0} → Map K V → Answer V × Map K V
map_clear m = (nothing, record { len = 0; store = [] })

unfoldable pub map_len : {K V : Type 0} → Map K V → Answer V × Map K V
unfolding int
map_len m = (size (int m.len), m)
