-- ===== src/Tasks/Bounds.antt =====
-- The length of the messages of a task.
use dify_plugin_daemon.Common.{
  ℕ, ◌-◌, ◌≤◌, ◌<◌, ◌≡◌, refl, sym, ◌∙◌, ap, ◌⊎◌, true, false, ◌++◌, ltb, length, length-append,
  take, drop, length-take, length-drop, take-append, drop-append, append_assoc, arith, Bool-cases,
  inl, inr,
}
use dify_plugin_daemon.Curd.Database.{Text}
use dify_plugin_daemon.Tasks.{codes, truncate_message}

-- A long message, cut.
cut : Text → Text
cut message = take 512 message ++ (codes "..." ++ drop (length message - 512) message)

length-cut : (message : Text) → 1024 < length message → length (cut message) ≡ 1027
unfolding cut
length-cut message h = omega (
  arith,
  h,
  length-append (take 512 message) (codes "..." ++ drop (length message - 512) message),
  length-take 512 message (omega (arith, h)),
  length-drop (length message - 512) message,
)

take-cut : (message : Text) → 1024 < length message → take 512 (cut message) ≡ take 512 message
unfolding cut
take-cut message h =
    take-append 512 (take 512 message) _ (omega (arith, length-take 512 message (omega (arith, h))))

drop-cut :
    (message : Text)
    → 1024 < length message
    → drop 515 (cut message) ≡ drop (length message - 512) message
unfolding cut
drop-cut message h =
    let front = take 512 message in
    let back = drop (length message - 512) message in
    ap (λ (t : Text). drop 515 t) (sym (append_assoc front (codes "...") back))
    ∙ drop-append 515 (front ++ codes "...") back (
        omega
          (arith, length-append front (codes "..."), length-take 512 message (omega (arith, h))))

truncate_message-cut :
    (message : Text)
    → ((1024 < length message) × (truncate_message message ≡ cut message))
      ⊎ ((length message ≤ 1024) × (truncate_message message ≡ message))
unfolding truncate_message cut
truncate_message-cut message = elim (Bool-cases (ltb 1024 (length message))) [
  | inl h ↦ inl (ltb-true 1024 (length message) h, rw h refl)
  | inr h ↦ inr (ltb-false 1024 (length message) h, rw h refl)
]
  where
    ltb-true : (a b : ℕ) → ltb a b ≡ true → a < b
    ltb-true a b h = ground (arith, h)

    ltb-false : (a b : ℕ) → ltb a b ≡ false → b ≤ a
    ltb-false a b h = ground (arith, h)

-- truncateMessage gives at most 1027 bytes.
pub truncate_message-length : (message : Text) → length (truncate_message message) ≤ 1027
truncate_message-length message = elim (truncate_message-cut message) [
  | inl (h, e) ↦ omega (arith, ap length e, length-cut message h)
  | inr (h, e) ↦ omega (arith, ap length e, h)
]

-- truncateMessage gives at most 1027 bytes, and keeps the first 512 bytes and the last 512 bytes of
-- each message that has as many.
pub truncate_message-ends :
    (message : Text)
    → 512 ≤ length message
    → (length (truncate_message message) ≤ 1027)
      × (take 512 (truncate_message message) ≡ take 512 message)
      × (drop (length (truncate_message message) - 512) (truncate_message message)
          ≡ drop (length message - 512) message)
truncate_message-ends message long = elim (truncate_message-cut message) [
  | inl (h, e) ↦
      let size = length-cut message h in
      let behind : length (cut message) - 512 ≡ 515 = omega (arith, size) in
      rw e (
        omega (arith, size),
        take-cut message h,
        ap (λ (n : ℕ). drop n (cut message)) behind ∙ drop-cut message h,
      )
  | inr (h, e) ↦ rw e (omega (arith, h), refl, refl)
]
