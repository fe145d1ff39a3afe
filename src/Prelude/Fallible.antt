-- ===== src/Prelude/Fallible.antt =====
-- `std::result::Result`, with its `?` as a bind.
use mathlib.Core.Bool.{Bool, true, false}
use mathlib.Core.Path.{◌≡◌, refl}

pub data Result {ℓ κ} (E : Type ℓ) (A : Type κ) : Type (ℓ ⊔ κ) where
  err : E → Result E A
  ok : A → Result E A

module _ {ℓ κ κ'} {E : Type ℓ} {A : Type κ} {B : Type κ'} where
  infixl 5 ◌>>=◌
  abbrev pub ◌>>=◌ : Result E A → (A → Result E B) → Result E B
  err e >>= next = err e
  ok a >>= next = next a

  infixl 5 ◌>>◌
  abbrev pub ◌>>◌ : Result E A → Result E B → Result E B
  r >> next = r >>= λ _. next

  -- Where a chain has succeeded, its first step has, and the rest has gone on from there.
  pub bind_ok :
      (r : Result E A) (next : A → Result E B) {out : B}
      → (r >>= next) ≡ ok out
      → (x : A) × (r ≡ ok x) × (next x ≡ ok out)
  bind_ok (err e) next h = absurd (cc h)
  bind_ok (ok x) next h = (x, refl, h)

  -- Equal rests give equal chains.
  pub bind_ext :
      (r : Result E A) (f g : A → Result E B) → ((x : A) → f x ≡ g x) → (r >>= f) ≡ (r >>= g)
  bind_ext (err e) f g h = refl
  bind_ext (ok x) f g h = h x

module _ {ℓ κ κ' κ''} {E : Type ℓ} {A : Type κ} {B : Type κ'} {C : Type κ''} where
  pub bind_assoc :
      (r : Result E A) (f : A → Result E B) (g : B → Result E C)
      → (r >>= λ x. f x >>= g) ≡ (r >>= f >>= g)
  bind_assoc (err e) f g = refl
  bind_assoc (ok x) f g = refl

module _ {ℓ} {E : Type ℓ} where
  -- An early `return Err(error)` unless the test passes.
  abbrev pub ensure : Bool → E → Result E (Unit {0})
  ensure false error = err error
  ensure true error = ok tt
