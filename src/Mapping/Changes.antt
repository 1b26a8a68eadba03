-- ===== src/Mapping/Changes.antt =====
-- What storing and deleting a key do to the counted map and to the function that it stands for.
use dify_plugin_daemon.Common.{
  ℕ, suc, ◌+◌, ◌-◌, ◌^◌, ◌%◌, ◌≡◌, ap, ◌∙◌, Option, none, some, if◌then◌else◌, length, arith,
}
use dify_plugin_daemon.Mapping.{
  find, insert, remove, Map, increment, decrement, is_some, map_store, map_delete,
}
use dify_plugin_daemon.Mapping.Table.{
  find-insert_same, find-insert_other, length-insert, find-remove_other, find-remove_same,
  length-remove, insert-Distinct, remove-Distinct,
}
use dify_plugin_daemon.Mapping.Spec.{Spec, update, spec_put, spec_drop, Refines}

wrapped_increment : (n : ℕ) → (n % 2 ^ 32 + 1) % 2 ^ 32 ≡ suc n % 2 ^ 32
wrapped_increment n = omega arith

wrapped_decrement : (n : ℕ) → (suc n % 2 ^ 32 + (2 ^ 32 - 1)) % 2 ^ 32 ≡ n % 2 ^ 32
wrapped_decrement n = omega arith

module _ {K V : Type 0} (discrete : Discrete K) where
  counts_put :
      (old new : Option V) (n c l : ℕ)
      → old ≡ new
      → c ≡ n % 2 ^ 32
      → l ≡ n
      → ((if is_some old then l else suc l) ≡ (if is_some new then n else suc n))
        × ((if is_some old then c else increment c) ≡ (if is_some new then n else suc n) % 2 ^ 32)
  unfolding increment
  counts_put none none n c l e h g =
      (omega (arith, g), ap (λ (x : ℕ). (x + 1) % 2 ^ 32) h ∙ wrapped_increment n)
  counts_put (some v) (some w) n c l e h g = (g, h)
  counts_put none (some w) n c l e h g = cc
  counts_put (some v) none n c l e h g = cc

  counts_drop :
      (old new : Option V) (n c l k : ℕ)
      → old ≡ new
      → c ≡ n % 2 ^ 32
      → l ≡ n
      → l ≡ (if is_some old then suc k else k)
      → (k ≡ (if is_some new then n - 1 else n))
        × ((if is_some old then decrement c else c) ≡ (if is_some new then n - 1 else n) % 2 ^ 32)
  unfolding decrement
  counts_drop none none n c l k e h g s = (omega (arith, g, s), h)
  counts_drop (some v) (some w) n c l k e h g s =
      let n_suc : n ≡ suc k = omega (arith, g, s) in
      (
        omega (arith, n_suc),
        ap (λ (x : ℕ). (x + (2 ^ 32 - 1)) % 2 ^ 32) (h ∙ ap (λ (x : ℕ). x % 2 ^ 32) n_suc)
            ∙ wrapped_decrement k
            ∙ ap (λ (x : ℕ). x % 2 ^ 32) (omega (arith, n_suc)),
      )
  counts_drop none (some w) n c l k e h g s = cc
  counts_drop (some v) none n c l k e h g s = cc

  looks_update :
      (k u : K) (value : Option V) (found_k found_u before : Option V) (lookup : K → Option V)
      → found_k ≡ value
      → (u ≡ k → found_u ≡ found_k)
      → (¬ (u ≡ k) → found_u ≡ before)
      → before ≡ lookup u
      → found_u ≡ update discrete k value lookup u
  looks_update k u value found_k found_u before lookup at_k same other h =
      ground (arith, at_k, same, other, h)

  pub put-Refines :
      (k : K) (v : V) (m : Map K V) (s : Spec K V)
      → Refines discrete m s
      → Refines discrete (map_store discrete k v m).1 (spec_put discrete k v s)
  unfolding map_store
  put-Refines k v m s r =
      let after = insert discrete k v m.store in
      let (total, word) =
        counts_put (find discrete k m.store) (s.lookup k) s.count m.len (length m.store) (r.looks k)
          r.counter r.counts in
      record {
        looks = λ u.
            looks_update k u (some v) (find discrete k after) (find discrete u after)
              (find discrete u m.store) s.lookup (find-insert_same discrete k v m.store)
              (λ e. ap (λ (x : K). find discrete x after) e)
              (find-insert_other discrete k u v m.store) (r.looks u);
        distinct = insert-Distinct discrete k v m.store r.distinct;
        counts = length-insert discrete k v m.store ∙ total;
        counter = word;
      }

  pub drop-Refines :
      (k : K) (m : Map K V) (s : Spec K V)
      → Refines discrete m s
      → Refines discrete (map_delete discrete k m).1 (spec_drop discrete k s)
  unfolding map_delete
  drop-Refines k m s r =
      let after = remove discrete k m.store in
      let (total, word) =
        counts_drop (find discrete k m.store) (s.lookup k) s.count m.len (length m.store)
          (length after) (r.looks k) r.counter r.counts (length-remove discrete k m.store) in
      record {
        looks = λ u.
            looks_update k u none (find discrete k after) (find discrete u after)
              (find discrete u m.store) s.lookup (find-remove_same discrete k m.store r.distinct)
              (λ e. ap (λ (x : K). find discrete x after) e)
              (find-remove_other discrete k u m.store) (r.looks u);
        distinct = remove-Distinct discrete k m.store r.distinct;
        counts = total;
        counter = word;
      }
