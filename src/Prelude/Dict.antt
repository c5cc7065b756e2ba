-- ===== src/Prelude/Dict.antt =====
-- A JavaScript `Map` with string keys as an association list; the order of entries is not read.
use mathlib.Core.Path.{◌≡◌}
use mathlib.Core.Option.{Option, none, some}
use mathlib.Core.List.{List, [], ◌∷◌}
use native.Mathlib.Omega.{arith}
use vpn_relay.Prelude.Tests.{if◌then◌else◌}
use vpn_relay.Prelude.Strings.{Text, text_eq, text_eq_iff}

abbrev pub Dict {ℓ} : Type ℓ → Type ℓ
Dict V = List (Text × V)

module _ {ℓ} {V : Type ℓ} where
  -- `m.get(k)`
  unfoldable pub get : Dict V → Text → Option V
  get [] k = none
  get ((j, v) ∷ m) k = if text_eq j k then some v else get m k

  -- `m.delete(k)`
  unfoldable pub remove : Dict V → Text → Dict V
  remove [] k = []
  remove ((j, v) ∷ m) k = let rest = remove m k in if text_eq j k then rest else (j, v) ∷ rest

  -- `m.set(k, v)`
  unfoldable pub put : Dict V → Text → V → Dict V
  put m k v = (k, v) ∷ remove m k

  pub get-remove :
      (m : Dict V) (k j : Text) → get (remove m k) j ≡ (if text_eq k j then none else get m j)
  unfolding get remove
  get-remove [] k j = ground arith
  get-remove ((i, v) ∷ m) k j =
      ground (arith, get-remove m k j, text_eq_iff i k, text_eq_iff i j, text_eq_iff k j)

  pub get-put :
      (m : Dict V) (k j : Text) (v : V)
      → get (put m k v) j ≡ (if text_eq k j then some v else get m j)
  unfolding get put
  get-put m k j v = ground (arith, get-remove m k j)
