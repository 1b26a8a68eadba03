-- ===== src/Curd/Rows.antt =====
-- The installations of a plugin are counted: what a search and an update do to the number.
use dify_plugin_daemon.Common.{
  ℕ, suc, ◌+◌, Bool, true, false, Option, none, some, List, [], ◌∷◌, ◌++◌, ◌≡◌, if◌then◌else◌,
  arith, Bool-cases, sym, subst, inl, inr, ◌∙◌,
}
use dify_plugin_daemon.Curd.Database.{Text, same, PluginInstallation, put, find_row, set_row}

-- Whether a row is an installation of the plugin `u`, as a number, and how many rows are.
abbrev pub one : Text → Option PluginInstallation → ℕ
one u none = 0
one u (some r) = if same r.unique_identifier u then 1 else 0

abbrev pub count : Text → List (Option PluginInstallation) → ℕ
count u [] = 0
count u (row ∷ rows) = one u row + count u rows

pub count-append :
    (u : Text) (rows : List (Option PluginInstallation)) (row : Option PluginInstallation)
    → count u (rows ++ row ∷ []) ≡ one u row + count u rows
count-append u [] row = omega arith
count-append u (r ∷ rows) row = omega (arith, count-append u rows row)

-- What replacing the row that a search has found does to the numbers.
abbrev pub Replaces : ℕ → PluginInstallation → List (Option PluginInstallation) → Type 0
Replaces m r rows =
    (u : Text) (row : Option PluginInstallation)
    → count u (set_row m row rows) + one u (some r) ≡ count u rows + one u row

if-true {ℓ} : {A : Type ℓ} (x y : A) {b : Bool} → b ≡ true → (if b then x else y) ≡ x
if-true x y e = ground arith

if-false {ℓ} : {A : Type ℓ} (x y : A) {b : Bool} → b ≡ false → (if b then x else y) ≡ y
if-false x y e = ground arith

some-pair :
    {k j : ℕ} {q r : PluginInstallation}
    → ◌≡◌ {A = Option (ℕ × PluginInstallation)} (some (k, q)) (some (j, r))
    → (k ≡ j) × (q ≡ r)
some-pair e = ground arith

pub find_row-Replaces :
    (test : ℕ → PluginInstallation → Bool) (k j : ℕ) (rows : List (Option PluginInstallation))
    (r : PluginInstallation)
    → find_row test k rows ≡ some (j, r)
    → (m : ℕ) × (j ≡ k + m) × (test j r ≡ true) × Replaces m r rows
unfolding find_row set_row
find_row-Replaces test k j [] r e = cc
find_row-Replaces test k j (none ∷ rows) r e =
    let (m, h0, h1, h2) = find_row-Replaces test (suc k) j rows r e in
    (suc m, omega (arith, h0), h1, λ u row. omega (arith, h2 u row))
find_row-Replaces test k j (some q ∷ rows) r e = elim (Bool-cases (test k q)) [
  | inl t ↦
      let (k≡j, q≡r) = some-pair (sym (if-true _ _ t) ∙ e) in
      (
        0,
        omega (arith, k≡j),
        cc,
        λ u row.
            subst
              (λ x.
                count u (row ∷ rows) + one u (some x) ≡ one u (some q) + count u rows + one u row)
              q≡r (omega arith),
      )
  | inr t ↦
      let (m, h0, h1, h2) = find_row-Replaces test (suc k) j rows r (sym (if-false _ _ t) ∙ e) in
      (suc m, omega (arith, h0), h1, λ u row. omega (arith, h2 u row))
]

pub put-same : {A : Type 0} (k : Text) (r : Option A) (t : Text → Option A) → put k r t k ≡ r
unfolding put
put-same k r t = ground arith

pub put-other :
    {A : Type 0} (k u : Text) (r : Option A) (t : Text → Option A) → ¬ (u ≡ k) → put k r t u ≡ t u
unfolding put
put-other k u r t n = ground arith

pub one-same : (u : Text) (r : PluginInstallation) → r.unique_identifier ≡ u → one u (some r) ≡ 1
one-same u r e = ground arith

pub one-other :
    (u : Text) (r : PluginInstallation) (n : ℕ)
    → ¬ (r.unique_identifier ≡ u)
    → one u (some r) + n ≡ n
one-other u r n h = ground arith

-- What is known of the installation that a search from the first row has returned.
pub find_row-found :
    (test : ℕ → PluginInstallation → Bool) (rows : List (Option PluginInstallation))
    (r : ℕ × PluginInstallation)
    → find_row test 0 rows ≡ some r
    → (test r.0 r.1 ≡ true) × Replaces r.0 r.1 rows
find_row-found test rows (j, r) e =
    let (m, j≡m, h, rep) = find_row-Replaces test 0 j rows r e in
    (h, subst (λ k. Replaces k r rows) (omega (arith, j≡m)) rep)
