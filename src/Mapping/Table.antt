-- ===== src/Mapping/Table.antt =====
-- The list of keys and values that stands for sync.Map.
use dify_plugin_daemon.Common.{
  suc, ◌≡◌, refl, sym, ◌∙◌, none, some, List, [], ◌∷◌, ite, if◌then◌else◌, length, arith,
}
use dify_plugin_daemon.Mapping.{find, insert, remove, is_some}

module _ {K V : Type 0} (discrete : Discrete K) where
  -- No key stands twice.
  abbrev pub Distinct : List (K × V) → Type 0
  Distinct [] = Unit
  Distinct ((k, v) ∷ rows) = (find discrete k rows ≡ none) × Distinct rows

  pub find-insert_same :
      (k : K) (v : V) (rows : List (K × V)) → find discrete k (insert discrete k v rows) ≡ some v
  unfolding find insert
  find-insert_same k v [] = ground arith
  find-insert_same k v ((x, w) ∷ rows) = ground (arith, find-insert_same k v rows)

  pub find-insert_other :
      (k u : K) (v : V) (rows : List (K × V))
      → ¬ (u ≡ k)
      → find discrete u (insert discrete k v rows) ≡ find discrete u rows
  unfolding find insert
  find-insert_other k u v [] n = ground (arith, λ (e : k ≡ u). n (sym e))
  find-insert_other k u v ((x, w) ∷ rows) n = ground (arith, n, find-insert_other k u v rows n)

  pub length-insert :
      (k : K) (v : V) (rows : List (K × V))
      → length (insert discrete k v rows)
        ≡ (if is_some (find discrete k rows) then length rows else suc (length rows))
  unfolding find insert
  length-insert k v [] = refl
  length-insert k v ((x, w) ∷ rows) = ground (arith, length-insert k v rows)

  pub find-remove_other :
      (k u : K) (rows : List (K × V))
      → ¬ (u ≡ k)
      → find discrete u (remove discrete k rows) ≡ find discrete u rows
  unfolding find remove
  find-remove_other k u [] n = refl
  find-remove_other k u ((x, w) ∷ rows) n = ground (arith, n, find-remove_other k u rows n)

  pub find-remove_same :
      (k : K) (rows : List (K × V))
      → Distinct rows
      → find discrete k (remove discrete k rows) ≡ none
  unfolding find remove
  find-remove_same k [] h = refl
  find-remove_same k ((x, w) ∷ rows) h = ground (arith, h, find-remove_same k rows h.1)

  pub length-remove :
      (k : K) (rows : List (K × V))
      → length rows ≡ (
          if is_some (find discrete k rows)
          then suc (length (remove discrete k rows))
          else length (remove discrete k rows))
  unfolding find remove
  length-remove k [] = refl
  length-remove k ((x, w) ∷ rows) = ground (arith, length-remove k rows)

  ite-Distinct :
      {A : Type 0} (d : Dec A) (x y : List (K × V))
      → Distinct x
      → (¬ A → Distinct y)
      → Distinct (ite d x y)
  ite-Distinct (yes a) x y h g = h
  ite-Distinct (no n) x y h g = g n

  find-insert_absent :
      (k u : K) (v : V) (rows : List (K × V))
      → find discrete u rows ≡ none
      → ¬ (u ≡ k)
      → find discrete u (insert discrete k v rows) ≡ none
  find-insert_absent k u v rows h n = find-insert_other k u v rows n ∙ h

  pub insert-Distinct :
      (k : K) (v : V) (rows : List (K × V)) → Distinct rows → Distinct (insert discrete k v rows)
  unfolding insert find
  insert-Distinct k v [] h = (refl, tt)
  insert-Distinct k v ((x, w) ∷ rows) h =
      ite-Distinct (discrete x k) _ _ (h.0, h.1)
        (λ n. (find-insert_absent k x v rows h.0 n, insert-Distinct k v rows h.1))

  find-remove_absent :
      (k u : K) (rows : List (K × V))
      → find discrete u rows ≡ none
      → find discrete u (remove discrete k rows) ≡ none
  unfolding find remove
  find-remove_absent k u [] h = refl
  find-remove_absent k u ((x, w) ∷ rows) h = ground (arith, h, find-remove_absent k u rows)

  pub remove-Distinct :
      (k : K) (rows : List (K × V)) → Distinct rows → Distinct (remove discrete k rows)
  unfolding remove
  remove-Distinct k [] h = tt
  remove-Distinct k ((x, w) ∷ rows) h =
      ite-Distinct (discrete x k) _ _ h.1
        (λ n. (find-remove_absent k x rows h.0, remove-Distinct k rows h.1))
