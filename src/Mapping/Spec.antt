-- ===== src/Mapping/Spec.antt =====
-- What a caller may rely on: a function from keys to values, and the number of its keys.
use dify_plugin_daemon.Common.{
  ℕ, suc, ◌-◌, ◌^◌, ◌%◌, ◌≡◌, Bool, true, false, ◌&&◌, Option, none, some, List, [], ◌∷◌, ite,
  if◌then◌else◌, length,
}
use dify_plugin_daemon.Mapping.{
  find, Map, Answer, nothing, panicked, found, absent, deleted, size, present, is_some, int,
  map_load, map_store, map_delete, map_delete_if, map_load_or_store, map_load_and_delete, map_swap,
  map_exists, map_clear, map_len,
}
use dify_plugin_daemon.Mapping.Table.{Distinct}

-- A call of a method.
pub data Operation (K V : Type 0) : Type 0 where
  load delete load_and_delete exists : K → Operation K V
  store load_or_store swap : K → V → Operation K V
  delete_if : K → (V → Bool) → Operation K V
  clear len : Operation K V

pub record Spec (K V : Type 0) : Type 0 where
  pub lookup : K → Option V
  pub count : ℕ

abbrev pub held : {V : Type 0} → Answer V → (V → Answer V) → Option V → Answer V
held missing some_answer none = missing
held missing some_answer (some v) = some_answer v

abbrev pub matched : {V : Type 0} → (V → Bool) → Option V → Bool
matched matches none = false
matched matches (some v) = matches v

module _ {K V : Type 0} where
  -- A call that does not panic: LoadAndDelete and Swap want a key of the map.
  unfoldable pub is_defined : Operation K V → Spec K V → Bool
  is_defined (load_and_delete k) s = is_some (s.lookup k)
  is_defined (swap k v) s = is_some (s.lookup k)
  is_defined (load k) s = true
  is_defined (store k v) s = true
  is_defined (delete k) s = true
  is_defined (delete_if k matches) s = true
  is_defined (load_or_store k v) s = true
  is_defined (exists k) s = true
  is_defined clear s = true
  is_defined len s = true

  abbrev pub empty_map : Map K V
  empty_map = record { len = 0; store = [] }

  abbrev pub empty_spec : Spec K V
  empty_spec = record { lookup = λ k. none; count = 0 }

module _ {K V : Type 0} (discrete : Discrete K) where
  unfoldable pub perform : Operation K V → Map K V → Answer V × Map K V
  unfolding map_load map_store map_delete map_delete_if map_load_or_store map_load_and_delete
      map_swap map_exists map_clear map_len
  perform (load k) m = map_load discrete k m
  perform (store k v) m = map_store discrete k v m
  perform (delete k) m = map_delete discrete k m
  perform (delete_if k matches) m = map_delete_if discrete k matches m
  perform (load_or_store k v) m = map_load_or_store discrete k v m
  perform (load_and_delete k) m = map_load_and_delete discrete k m
  perform (swap k v) m = map_swap discrete k v m
  perform (exists k) m = map_exists discrete k m
  perform clear m = map_clear m
  perform len m = map_len m

  abbrev pub update : K → Option V → (K → Option V) → K → Option V
  update k value lookup u = ite (discrete u k) value (lookup u)

  -- A value for a key, and the key counted if it is new.
  abbrev pub spec_put : K → V → Spec K V → Spec K V
  spec_put k v s = record {
    lookup = update k (some v) s.lookup;
    count = if is_some (s.lookup k) then s.count else suc s.count;
  }

  -- No value for a key that has one.
  abbrev pub spec_drop : K → Spec K V → Spec K V
  spec_drop k s = record {
    lookup = update k none s.lookup;
    count = if is_some (s.lookup k) then s.count - 1 else s.count;
  }

  abbrev pub spec_drop_if : K → Bool → Spec K V → Answer V × Spec K V
  spec_drop_if k true s = (deleted true, spec_drop k s)
  spec_drop_if k false s = (deleted false, s)

  -- What a caller may rely on; Len is the number of keys as an int32.
  unfoldable pub spec : Operation K V → Spec K V → Answer V × Spec K V
  spec (load k) s = (held absent (λ v. found v true) (s.lookup k), s)
  spec (store k v) s = (nothing, spec_put k v s)
  spec (delete k) s = (nothing, spec_drop k s)
  spec (delete_if k matches) s = spec_drop_if k (matched matches (s.lookup k)) s
  spec (load_or_store k v) s = (
    held (found v false) (λ w. found w true) (s.lookup k),
    if is_some (s.lookup k) then s else spec_put k v s,
  )
  spec (load_and_delete k) s = (held panicked (λ v. found v true) (s.lookup k), spec_drop k s)
  spec (swap k v) s = (held panicked (λ w. found w true) (s.lookup k), spec_put k v s)
  spec (exists k) s = (present (is_some (s.lookup k)), s)
  spec clear s = (nothing, record { lookup = λ u. none; count = 0 })
  spec len s = (size (int (s.count % 2 ^ 32)), s)

  -- The map stands for the function, and its counter for the number of the keys.
  pub record Refines (m : Map K V) (s : Spec K V) : Type 0 where
    pub looks : (k : K) → find discrete k m.store ≡ s.lookup k
    pub distinct : Distinct discrete m.store
    pub counts : length m.store ≡ s.count
    pub counter : m.len ≡ s.count % 2 ^ 32

  abbrev perform_next :
      (Map K V → List (Answer V) × Map K V) → Answer V × Map K V → List (Answer V) × Map K V
  perform_next next (answer, m) = (answer ∷ (next m).0, (next m).1)

  -- The answers to one call after another.
  unfoldable pub perform_all : List (Operation K V) → Map K V → List (Answer V) × Map K V
  unfolding perform
  perform_all [] m = ([], m)
  perform_all (op ∷ ops) m = perform_next (perform_all ops) (perform op m)

  abbrev spec_next :
      (Spec K V → List (Answer V) × Spec K V) → Answer V × Spec K V → List (Answer V) × Spec K V
  spec_next next (answer, s) = (answer ∷ (next s).0, (next s).1)

  unfoldable pub spec_all : List (Operation K V) → Spec K V → List (Answer V) × Spec K V
  unfolding spec
  spec_all [] s = ([], s)
  spec_all (op ∷ ops) s = spec_next (spec_all ops) (spec op s)

  unfoldable pub all_defined : List (Operation K V) → Spec K V → Bool
  unfolding spec is_defined
  all_defined [] s = true
  all_defined (op ∷ ops) s = is_defined op s && all_defined ops (spec op s).1
