-- ===== src/Prelude/Results.antt =====
-- Results that are a value or an error of the module's own, chained by `do` blocks.
use mathlib.Core.Path.{◌≡◌, refl}
use mathlib.Core.Bool.{Bool, true, false}

pub data Fallible {ℓ} (E : Type 0) (A : Type ℓ) : Type ℓ where
  err : E → Fallible E A
  ok : A → Fallible E A

module _ {E : Type 0} where
  infixl 5 ◌>>=◌ ◌>>◌
  abbrev pub ◌>>=◌ {ℓ κ} :
      {X : Type ℓ} {Y : Type κ} → Fallible E X → (X → Fallible E Y) → Fallible E Y
  err problem >>= next = err problem
  ok x >>= next = next x

  abbrev pub ◌>>◌ {ℓ} : {Y : Type ℓ} → Fallible E (Unit {0}) → Fallible E Y → Fallible E Y
  check >> next = check >>= λ _. next

  -- An error where the test is true.
  abbrev pub refuse : Bool → E → Fallible E (Unit {0})
  refuse true problem = err problem
  refuse false problem = ok tt

  pub refuse-ok {ℓ} :
      {Y : Type ℓ} (test : Bool) (problem : E) (next : Fallible E Y) {y : Y}
      → (refuse test problem >> next) ≡ ok y
      → (test ≡ false) × (next ≡ ok y)
  refuse-ok true problem next h = cc
  refuse-ok false problem next h = (refl, h)

  pub >>-ok {ℓ} :
      {Y : Type ℓ} (check : Fallible E (Unit {0})) (next : Fallible E Y) {y : Y}
      → (check >> next) ≡ ok y
      → (check ≡ ok tt) × (next ≡ ok y)
  >>-ok (err problem) next h = cc
  >>-ok (ok tt) next h = (refl, h)

  pub >>=-ok {ℓ κ} :
      {X : Type ℓ} {Y : Type κ} (first : Fallible E X) (next : X → Fallible E Y) {y : Y}
      → (first >>= next) ≡ ok y
      → (x : X) × (first ≡ ok x) × (next x ≡ ok y)
  >>=-ok (err problem) next h = cc
  >>=-ok (ok x) next h = (x, refl, h)

pub ok-injective {ℓ} :
    {E : Type 0} {X : Type ℓ} {x y : X} → ◌≡◌ {A = Fallible E X} (ok x) (ok y) → x ≡ y
ok-injective e = cc
