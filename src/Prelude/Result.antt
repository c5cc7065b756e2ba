-- ===== src/Prelude/Result.antt =====
-- The outcome of code that throws: `err` carries what it threw, `ok` what it returned.
use mathlib.Core.Path.{◌≡◌, refl}

pub data Result (E A : Type 0) : Type 0 where
  err : E → Result E A
  ok : A → Result E A

module _ {E A B : Type 0} where
  infixl 5 ◌>>=◌ ◌>>◌
  abbrev pub ◌>>=◌ : Result E A → (A → Result E B) → Result E B
  r >>= next = elim r [ err thrown ↦ err thrown | ok returned ↦ next returned ]

  abbrev pub ◌>>◌ : Result E A → Result E B → Result E B
  r >> other = r >>= λ _. other

  -- Code that returns has passed its first part.
  pub passed_first :
      (next : A → Result E B) (r : Result E A) {final : B}
      → (r >>= next) ≡ ok final
      → (returned : A) × (r ≡ ok returned) × (next returned ≡ ok final)
  passed_first next (err thrown) h = cc
  passed_first next (ok returned) h = (returned, refl, h)
