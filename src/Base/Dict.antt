-- ===== src/Base/Dict.antt =====
-- Python's `dict` with string keys, as an association list in insertion order.
use Prim.Native.Nat.{suc, ◌≤◌}
use Prim.Native.String.{String}
use mathlib.Core.Path.{◌≡◌, refl}
use mathlib.Core.Bool.{Bool}
use mathlib.Core.Option.{Option, none, some}
use mathlib.Core.List.{List, [], ◌∷◌}
use native.Mathlib.Omega.{arith}
use text.Mathlib.Text.{◌==◌ as str_eq}
use text.Mathlib.TextEquality.{eq_iff}
use factn_assistant_service.Base.Tests.{if◌then◌else◌}
use factn_assistant_service.Base.Lists.{count_if}

abbrev pub Dict {ℓ} : Type ℓ → Type ℓ
Dict V = List (String × V)

module _ {ℓ} {V : Type ℓ} where
  -- `d.get(k)`
  unfoldable pub lookup : String → Dict V → Option V
  lookup k [] = none
  lookup k ((j, v) ∷ d) = if str_eq j k then some v else lookup k d

  -- `d[k] = v`
  unfoldable pub put : String → V → Dict V → Dict V
  put k v [] = (k, v) ∷ []
  put k v ((j, w) ∷ d) = if str_eq j k then (j, v) ∷ d else (j, w) ∷ put k v d

  -- `d.pop(k, None)`
  unfoldable pub pop : String → Dict V → Dict V
  pop k [] = []
  pop k ((j, w) ∷ d) = let rest = pop k d in if str_eq j k then rest else (j, w) ∷ rest

  pub lookup-put :
      (k j : String) (v : V) (d : Dict V)
      → lookup j (put k v d) ≡ (if str_eq k j then some v else lookup j d)
  unfolding lookup put
  lookup-put k j v [] = refl
  lookup-put k j v ((i, w) ∷ d) =
      ground (arith, eq_iff k j, eq_iff i k, eq_iff i j, lookup-put k j v d)

  pub lookup-pop :
      (k j : String) (d : Dict V) → lookup j (pop k d) ≡ (if str_eq k j then none else lookup j d)
  unfolding lookup pop
  lookup-pop k j [] = ground arith
  lookup-pop k j ((i, w) ∷ d) = ground (arith, eq_iff k j, eq_iff i k, eq_iff i j, lookup-pop k j d)

  pub count_if-pop :
      (p : String × V → Bool) (k : String) (d : Dict V) → count_if p (pop k d) ≤ count_if p d
  unfolding pop
  count_if-pop p k [] = omega arith
  count_if-pop p k ((j, w) ∷ d) = ground (arith, count_if-pop p k d)

  pub pop-put : (k : String) (v : V) (d : Dict V) → pop k (put k v d) ≡ pop k d
  unfolding pop put
  pop-put k v [] = ground (arith, eq_iff k k)
  pop-put k v ((j, w) ∷ d) = ground (arith, pop-put k v d)

  -- A new key adds its entry.
  pub count_if-put_new :
      (p : String × V → Bool) (k : String) (v : V) (d : Dict V)
      → lookup k d ≡ none
      → count_if p (put k v d) ≡ (if p (k, v) then suc (count_if p d) else count_if p d)
  unfolding lookup put
  count_if-put_new p k v [] h = refl
  count_if-put_new p k v ((j, w) ∷ d) h = ground (arith, eq_iff j k, count_if-put_new p k v d)

  -- A key that is there keeps its place.
  pub count_if-put_old :
      (p : String × V → Bool) (k : String) (v w : V) (d : Dict V)
      → lookup k d ≡ some w
      → ((j : String) → p (j, v) ≡ p (j, w))
      → count_if p (put k v d) ≡ count_if p d
  unfolding lookup put
  count_if-put_old p k v w [] h same = cc
  count_if-put_old p k v w ((j, u) ∷ d) h same = ground (arith, same j, count_if-put_old p k v w d)
