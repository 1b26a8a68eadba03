-- ===== src/Backwards/RequestFields.antt =====
-- The fields of a request, map[string]json.RawMessage, and the identity that a plugin may not set:
-- internal/core/io_tunnel/backwards_invocation/task.go, dispatchDifyInvocationTask.
use Prim.Native.Char.{code}
use Prim.Native.String.{String}
use text.Mathlib.Text.{◌==◌ as str_eq}
use dify_plugin_daemon.Common.{
  ℕ, ◌+◌, Bool, true, false, ◌&&◌, ◌||◌, List, [], ◌∷◌, leb, ◌==◌, if◌then◌else◌,
}

-- The code points of a text.
abbrev pub codes : String → List ℕ
codes String.[] = []
codes (String.◌∷◌ c s) = code c ∷ codes s

-- The member in lower case of a code point's case-folding orbit, as far as it has an ASCII letter:
-- U+017F folds to s and U+212A to k.
pub fold_code : ℕ → ℕ
fold_code c =
    if leb b'A' c && leb c b'Z'
    then c + 32
    else if c == 0x17f
    then b's'
    else if c == 0x212a
    then b'k'
    else c

pub equal_codes : List ℕ → List ℕ → Bool
unfolding fold_code
equal_codes [] [] = true
equal_codes [] (d ∷ ds) = false
equal_codes (c ∷ cs) [] = false
equal_codes (c ∷ cs) (d ∷ ds) = fold_code c == fold_code d && equal_codes cs ds

-- strings.EqualFold of a key and an ASCII name.
unfoldable pub equal_fold : String → String → Bool
unfolding equal_codes
equal_fold s t = equal_codes (codes s) (codes t)

abbrev pub Fields : Type 0 → Type 0
Fields Raw = List (String × Raw)

-- The test of the loop that removes aliases.
unfoldable pub is_identity : String → Bool
unfolding equal_fold
is_identity key = equal_fold key "tenant_id" || equal_fold key "user_id" || equal_fold key "type"

module _ {Raw : Type 0} where
  -- The loop that removes the aliases.
  unfoldable pub delete_identity : Fields Raw → Fields Raw
  unfolding is_identity
  delete_identity [] = []
  delete_identity ((k, v) ∷ fields) =
      if is_identity k then delete_identity fields else (k, v) ∷ delete_identity fields

  unfoldable pub delete : String → Fields Raw → Fields Raw
  delete key [] = []
  delete key ((k, v) ∷ fields) =
      if str_eq k key then delete key fields else (k, v) ∷ delete key fields

  -- The assignment to a key of the map.
  unfoldable pub put : String → Raw → Fields Raw → Fields Raw
  unfolding delete
  put key v fields = (key, v) ∷ delete key fields
