-- ===== src/Mapping/Refinement.antt =====
-- The counted map against a function from keys to values and the number of its keys.
use dify_plugin_daemon.Common.{
  suc, ◌^◌, ◌%◌, ◌≡◌, ◌≢◌, refl, sym, ap, ◌∙◌, Bool, true, Option, none, some, List, [], ◌∷◌,
  if◌then◌else◌, length, arith, Bool-cases, Option-cases, inl, inr,
}
use dify_plugin_daemon.Mapping.{
  loaded, deleted_if, loaded_or_stored, asserted, find, insert, Map, Answer, panicked, size,
  is_some, map_load, map_store, map_delete, map_delete_if, map_load_or_store, map_load_and_delete,
  map_swap, map_exists, map_clear, map_len, int,
}
use dify_plugin_daemon.Mapping.Table.{find-insert_same, length-insert}
use dify_plugin_daemon.Mapping.Spec.{
  Operation, load, delete, load_and_delete, exists, store, load_or_store, swap, delete_if, clear,
  len, Spec, perform, spec, is_defined, Refines, perform_all, spec_all, all_defined, empty_map,
  empty_spec,
}
use dify_plugin_daemon.Mapping.Changes.{put-Refines, drop-Refines}

module _ {K V : Type 0} (discrete : Discrete K) where
  -- A call that does not panic answers as specified, and keeps the map a stand-in of the function.
  abbrev Step : Operation K V → Map K V → Spec K V → Type 0
  Step op m s =
      ((perform discrete op m).0 ≡ (spec discrete op s).0)
      × Refines discrete (perform discrete op m).1 (spec discrete op s).1

  reads-Step :
      (k : K) (m : Map K V) (s : Spec K V)
      → Refines discrete m s
      → Step (load k) m s × Step (exists k) m s
  unfolding perform spec map_load map_exists loaded
  reads-Step k m s r = elim (Option-cases (find discrete k m.store)) [
    | inl h ↦ rw (h, sym (r.looks k) ∙ h) ((refl, r), (refl, r))
    | inr (v, h) ↦ rw (h, sym (r.looks k) ∙ h) ((refl, r), (refl, r))
  ]

  delete_if-Step :
      (k : K) (matches : V → Bool) (m : Map K V) (s : Spec K V)
      → Refines discrete m s
      → Step (delete_if k matches) m s
  unfolding perform spec map_delete_if deleted_if map_delete
  delete_if-Step k matches m s r = elim (Option-cases (find discrete k m.store)) [
    | inl h ↦ rw (h, sym (r.looks k) ∙ h) (refl, r)
    | inr (v, h) ↦
        let h' = sym (r.looks k) ∙ h in
        let dropped = rw h at (drop-Refines discrete k m s r) in
        elim (Bool-cases (matches v)) [
          | inl b ↦ rw (h, h', b) (refl, dropped)
          | inr b ↦ rw (h, h', b) (refl, r)
        ]
  ]

  load_or_store-Step :
      (k : K) (v : V) (m : Map K V) (s : Spec K V)
      → Refines discrete m s
      → Step (load_or_store k v) m s
  unfolding perform spec map_load_or_store loaded_or_stored map_store
  load_or_store-Step k v m s r = elim (Option-cases (find discrete k m.store)) [
    | inl h ↦
        let h' = sym (r.looks k) ∙ h in
        rw (h, h') (refl, rw (h, h') at (put-Refines discrete k v m s r))
    | inr (w, h) ↦ rw (h, sym (r.looks k) ∙ h) (refl, r)
  ]

  load_and_delete-Step :
      (k : K) (m : Map K V) (s : Spec K V)
      → Refines discrete m s
      → is_defined (load_and_delete k) s ≡ true
      → Step (load_and_delete k) m s
  unfolding perform spec map_load_and_delete asserted map_delete is_defined
  load_and_delete-Step k m s r d = elim (Option-cases (find discrete k m.store)) [
    | inl h ↦ absurd (ground (arith, d, h, r.looks k))
    | inr (v, h) ↦
        let h' = sym (r.looks k) ∙ h in
        rw (h, h') (refl, rw (h, h') at (drop-Refines discrete k m s r))
  ]

  swap-Step :
      (k : K) (v : V) (m : Map K V) (s : Spec K V)
      → Refines discrete m s
      → is_defined (swap k v) s ≡ true
      → Step (swap k v) m s
  unfolding perform spec map_swap asserted map_store is_defined
  swap-Step k v m s r d = elim (Option-cases (find discrete k m.store)) [
    | inl h ↦ absurd (ground (arith, d, h, r.looks k))
    | inr (w, h) ↦
        let h' = sym (r.looks k) ∙ h in
        rw (h, h') (refl, rw (h, h') at (put-Refines discrete k v m s r))
  ]

  pub empty-Refines : Refines {V = V} discrete empty_map empty_spec
  unfolding find
  empty-Refines = record { looks = λ k. refl; distinct = tt; counts = refl; counter = refl }

  perform-Refines :
      (op : Operation K V) (m : Map K V) (s : Spec K V)
      → Refines discrete m s
      → is_defined op s ≡ true
      → Step op m s
  unfolding perform spec map_store map_delete map_clear map_len
  perform-Refines (load k) m s r d = (reads-Step k m s r).0
  perform-Refines (exists k) m s r d = (reads-Step k m s r).1
  perform-Refines (store k v) m s r d = (refl, put-Refines discrete k v m s r)
  perform-Refines (delete k) m s r d = (refl, drop-Refines discrete k m s r)
  perform-Refines (delete_if k matches) m s r d = delete_if-Step k matches m s r
  perform-Refines (load_or_store k v) m s r d = load_or_store-Step k v m s r
  perform-Refines (load_and_delete k) m s r d = load_and_delete-Step k m s r d
  perform-Refines (swap k v) m s r d = swap-Step k v m s r d
  perform-Refines clear m s r d = (refl, empty-Refines)
  perform-Refines len m s r d = (ap (λ n. size (int n)) r.counter, r)

  perform_all-Refines :
      (ops : List (Operation K V)) (m : Map K V) (s : Spec K V)
      → Refines discrete m s
      → all_defined discrete ops s ≡ true
      → ((perform_all discrete ops m).0 ≡ (spec_all discrete ops s).0)
        × Refines discrete (perform_all discrete ops m).1 (spec_all discrete ops s).1
  unfolding perform_all spec_all all_defined
  perform_all-Refines [] m s r d = (refl, r)
  perform_all-Refines (op ∷ ops) m s r d =
      let (answer, next) = perform-Refines op m s r (ground (arith, d)) in
      let (answers, end) = perform_all-Refines ops _ _ next (ground (arith, d)) in
      (
        ap (λ (a : Answer V). a ∷ (perform_all discrete ops (perform discrete op m).1).0) answer
            ∙ ap (λ (as' : List (Answer V)). (spec discrete op s).0 ∷ as') answers,
        end,
      )

  -- Any sequence of calls on a new Map, as long as LoadAndDelete and Swap are called with keys of the
  -- map, answers as a function from keys to values with the number of its keys, which Len gives as an
  -- int32, and the map stands for that function afterwards.
  pub perform_all-spec_all :
      (ops : List (Operation K V))
      → all_defined discrete ops empty_spec ≡ true
      → ((perform_all discrete ops empty_map).0 ≡ (spec_all discrete ops empty_spec).0)
        × Refines discrete
            (perform_all discrete ops empty_map).1
            (spec_all discrete ops empty_spec).1
  perform_all-spec_all ops d = perform_all-Refines ops empty_map empty_spec empty-Refines d

  -- Swap of a key that the map does not have panics, and leaves a map that has the key and whose
  -- counter is not the number of its keys modulo 2 ^ 32.
  pub map_swap-uncounted :
      (k : K) (v : V) (m : Map K V) (s : Spec K V)
      → Refines discrete m s
      → s.lookup k ≡ none
      → ((map_swap discrete k v m).0 ≡ panicked)
        × (find discrete k (map_swap discrete k v m).1.store ≡ some v)
        × ((map_swap discrete k v m).1.len ≢ length (map_swap discrete k v m).1.store % 2 ^ 32)
  unfolding map_swap asserted
  map_swap-uncounted k v m s r free =
      let missing = r.looks k ∙ free in
      let total : length (insert discrete k v m.store) ≡ suc (length m.store) =
        length-insert discrete k v m.store
        ∙ ap (λ (o : Option V). if is_some o then length m.store else suc (length m.store))
            missing in
      rw missing (
        refl,
        find-insert_same discrete k v m.store,
        λ same. omega (arith, same, total, r.counts, r.counter),
      )
