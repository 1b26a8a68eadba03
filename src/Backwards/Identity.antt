-- ===== src/Backwards/Identity.antt =====
-- The identity that a task's request carries is the session's.
use Prim.Native.String.{String}
use text.Mathlib.Text.{◌==◌ as str_eq}
use dify_plugin_daemon.Common.{
  true, false, [], ◌∷◌, ◌≡◌, refl, All, arith, Bool-cases, inl, inr, ◌⊎◌,
}
use dify_plugin_daemon.Backwards.Permission.{InvokeType}
use dify_plugin_daemon.Backwards.RequestFields.{
  Fields, equal_fold, is_identity, delete_identity, delete, put,
}
use dify_plugin_daemon.Backwards.{Task, Decoded, Session, trusted_fields}

module _ {Raw : Type 0} where
  -- An entry that json takes for the field `name`, whatever its letters' case, is the entry `(name, v)`.
  abbrev pub Only : String → Raw → String × Raw → Type 0
  Only name v kv = equal_fold kv.0 name ≡ true → kv ≡ (name, v)

  -- The entry stands in the map.
  abbrev pub Has : String × Raw → Fields Raw → Type 0
  Has e [] = ⊥
  Has e (kv ∷ fields) = (kv ≡ e) ⊎ Has e fields

  -- No entry is taken for one of the three fields.
  abbrev Clean : String × Raw → Type 0
  Clean kv = is_identity kv.0 ≡ false

  delete_identity-Clean : (fields : Fields Raw) → All Clean (delete_identity fields)
  unfolding delete_identity
  delete_identity-Clean [] = tt
  delete_identity-Clean ((k, v) ∷ fields) = elim (Bool-cases (is_identity k)) [
    | inl e ↦ rw (e, delete_identity) (delete_identity-Clean fields)
    | inr e ↦ rw (e, delete_identity) (e, delete_identity-Clean fields)
  ]

  delete-All {ℓ} :
      (P : String × Raw → Type ℓ) (key : String) (fields : Fields Raw)
      → All P fields
      → All P (delete key fields)
  unfolding delete
  delete-All P key [] h = tt
  delete-All P key ((k, v) ∷ fields) h = elim (Bool-cases (str_eq k key)) [
    | inl e ↦ rw (e, delete) (delete-All P key fields h.1)
    | inr e ↦ rw (e, delete) (h.0, delete-All P key fields h.1)
  ]

  All-map {ℓ κ} :
      (P : String × Raw → Type ℓ) (Q : String × Raw → Type κ) (fields : Fields Raw)
      → ((kv : String × Raw) → P kv → Q kv)
      → All P fields
      → All Q fields
  All-map P Q [] f h = tt
  All-map P Q (kv ∷ fields) f h = (f kv h.0, All-map P Q fields f h.1)

  module _ {Request : Type 0} (marshal_text : String → Raw) (marshal_type : InvokeType → Raw)
      (decode : Task → Fields Raw → Decoded Raw Request) where
    -- Whatever fields a plugin sends: every entry that the decoder takes for the tenant, the user or
    -- the type of the request, under any spelling of the name, is the one of the session and of the
    -- call; and the three entries stand in the map.
    pub trusted_fields-Only :
        (typ : InvokeType) (session : Session) (fields : Fields Raw)
        → let trusted = trusted_fields marshal_text marshal_type decode typ session fields in
          All (Only "tenant_id" (marshal_text session.tenant_id)) trusted
          × All (Only "user_id" (marshal_text session.user_id)) trusted
          × All (Only "type" (marshal_type typ)) trusted
          × Has ("tenant_id", marshal_text session.tenant_id) trusted
          × Has ("user_id", marshal_text session.user_id) trusted
          × Has ("type", marshal_type typ) trusted
    unfolding trusted_fields put is_identity
    trusted_fields-Only typ session fields =
        let rest = delete-All Clean "type" _ (
          delete-All Clean "user_id" _
            (delete-All Clean "tenant_id" _ (delete_identity-Clean fields))) in
        (
          ((λ h. cc), ((λ h. cc), ((λ h. refl), All-map Clean _ _ (λ kv c h. ground arith) rest))),
          ((λ h. cc), ((λ h. refl), ((λ h. cc), All-map Clean _ _ (λ kv c h. ground arith) rest))),
          ((λ h. refl), ((λ h. cc), ((λ h. cc), All-map Clean _ _ (λ kv c h. ground arith) rest))),
          inr (inr (inl refl)),
          inr (inl refl),
          inl refl,
        )
