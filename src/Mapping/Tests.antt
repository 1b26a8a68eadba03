-- ===== src/Mapping/Tests.antt =====
-- A map with numbers for keys.
use dify_plugin_daemon.Common.{
  ℕ, ◌^◌, ◌%◌, ◌≡◌, ◌≢◌, refl, pos, Bool, true, some, List, [], ◌∷◌, length, ℕ_discrete,
}
use dify_plugin_daemon.Mapping.{
  find, Map, nothing, found, deleted, size, panicked, loaded, deleted_if, loaded_or_stored,
  asserted, insert, remove, increment, decrement, map_store, map_delete_if, map_load_or_store,
  map_swap, map_len, int,
}
use dify_plugin_daemon.Mapping.Spec.{
  Operation, store, load_or_store, swap, delete_if, len, spec, is_defined, perform, perform_all,
  spec_all, all_defined, empty_map, empty_spec, Refines,
}
use dify_plugin_daemon.Mapping.Refinement.{perform_all-spec_all, map_swap-uncounted, empty-Refines}

abbrev calls : List (Operation ℕ ℕ)
calls =
    store 1 10 ∷ store 1 11 ∷ load_or_store 2 20 ∷ swap 1 12 ∷ delete_if 2 (λ v. true) ∷ len ∷ []

answers :
    (perform_all ℕ_discrete calls empty_map).0
    ≡ nothing ∷ nothing ∷ found 20 Bool.false ∷ found 11 true ∷ deleted true ∷ size (pos 1) ∷ []
unfolding perform_all perform map_store map_load_or_store map_swap map_delete_if map_len int find
    insert remove increment decrement loaded deleted_if loaded_or_stored asserted ℕ_discrete
answers = refl

calls-defined : all_defined ℕ_discrete calls empty_spec ≡ true
unfolding all_defined is_defined spec ℕ_discrete
calls-defined = refl

perform_all-spec_all_example :
    ((perform_all ℕ_discrete calls empty_map).0 ≡ (spec_all ℕ_discrete calls empty_spec).0)
    × Refines ℕ_discrete
        (perform_all ℕ_discrete calls empty_map).1
        (spec_all ℕ_discrete calls empty_spec).1
perform_all-spec_all_example = perform_all-spec_all ℕ_discrete calls calls-defined

abbrev empty : Map ℕ ℕ
empty = empty_map

map_swap-uncounted_example :
    ((map_swap ℕ_discrete 1 10 empty).0 ≡ panicked)
    × (find ℕ_discrete 1 (map_swap ℕ_discrete 1 10 empty).1.store ≡ some 10)
    × ((map_swap ℕ_discrete 1 10 empty).1.len
        ≢ length (map_swap ℕ_discrete 1 10 empty).1.store % 2 ^ 32)
map_swap-uncounted_example =
    map_swap-uncounted ℕ_discrete 1 10 empty empty_spec (empty-Refines ℕ_discrete) refl
