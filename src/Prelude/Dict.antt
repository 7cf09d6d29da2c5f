-- ===== src/Prelude/Dict.antt =====
-- A Python dict with text keys: insertion order, and a write of a present key in its place.
use Prim.Native.String.{String}
use mathlib.Core.Path.{◌≡◌, refl}
use mathlib.Core.Option.{Option, none, some}
use mathlib.Core.List.{List, [], ◌∷◌}
use native.Mathlib.Omega.{arith}
use text.Mathlib.TextEquality.{eq_iff}
use openclaw_ecc_orchestrato.Prelude.{if◌then◌else◌, str_eq, false}

abbrev pub Dict {ℓ} : Type ℓ → Type ℓ
Dict V = List (String × V)

module _ {ℓ} {V : Type ℓ} where
  unfoldable pub get : String → Dict V → Option V
  get k [] = none
  get k ((j, v) ∷ m) = if str_eq j k then some v else get k m

  unfoldable pub put : String → V → Dict V → Dict V
  put k v [] = (k, v) ∷ []
  put k v ((j, w) ∷ m) = if str_eq j k then (j, v) ∷ m else (j, w) ∷ put k v m

  unfoldable pub keys : Dict V → List String
  keys [] = []
  keys ((j, v) ∷ m) = j ∷ keys m

  pub get-put :
      (k j : String) (v : V) (m : Dict V)
      → get j (put k v m) ≡ (if str_eq k j then some v else get j m)
  unfolding get put
  get-put k j v [] = refl
  get-put k j v ((i, w) ∷ m) = ground (arith, eq_iff k j, eq_iff i k, eq_iff i j, get-put k j v m)

  -- The second write of a key hides the first.
  pub put-put : (k : String) (v w : V) (m : Dict V) → put k w (put k v m) ≡ put k w m
  unfolding put
  put-put k v w [] = ground (arith, eq_iff k k)
  put-put k v w ((i, x) ∷ m) = ground (arith, eq_iff i k, put-put k v w m)

  pub put-get : (k : String) (v : V) (m : Dict V) → get k m ≡ some v → put k v m ≡ m
  unfolding get put
  put-get k v [] h = cc
  put-get k v ((i, x) ∷ m) h = ground (arith, put-get k v m)

  pub get-put_self : (k : String) (v : V) (m : Dict V) → get k (put k v m) ≡ some v
  get-put_self k v m = rw get-put (ground (arith, eq_iff k k))

  pub get-put_ne :
      (k j : String) (v : V) (m : Dict V) → str_eq k j ≡ false → get j (put k v m) ≡ get j m
  get-put_ne k j v m h = rw (get-put, h) refl

  -- `pop(k, None)`; the keys of a dict are distinct, and here every entry of the key goes.
  unfoldable pub pop : String → Dict V → Dict V
  pop k [] = []
  pop k ((j, v) ∷ m) = let rest = pop k m in if str_eq j k then rest else (j, v) ∷ rest

  pub get-pop :
      (k j : String) (m : Dict V) → get j (pop k m) ≡ (if str_eq k j then none else get j m)
  unfolding get pop
  get-pop k j [] = ground arith
  get-pop k j ((i, x) ∷ m) = ground (arith, eq_iff k j, eq_iff i k, eq_iff i j, get-pop k j m)
