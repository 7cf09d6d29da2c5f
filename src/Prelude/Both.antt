-- ===== src/Prelude/Both.antt =====
-- The connectives on Booleans, as those on propositions.
use mathlib.Core.Path.{◌≡◌, refl}
use mathlib.Core.Logic.{◌⊎◌, inl, inr}
use mathlib.Core.Bool.{Bool, true, false, not, ◌&&◌, ◌||◌}

pub both : {b c : Bool} → b ≡ true → c ≡ true → (b && c) ≡ true
both p q = cc

pub both_split : (b c : Bool) → (b && c) ≡ true → (b ≡ true) × (c ≡ true)
both_split true c h = (refl, h)
both_split false c h = absurd cc

pub either_split : (b c : Bool) → (b || c) ≡ true → (b ≡ true) ⊎ (c ≡ true)
either_split true c h = inl refl
either_split false c h = inr h

pub either_left : {b : Bool} (c : Bool) → b ≡ true → (b || c) ≡ true
either_left c p = cc

pub either_right : (b : Bool) {c : Bool} → c ≡ true → (b || c) ≡ true
either_right true p = refl
either_right false p = p

pub not-false : (b : Bool) → not b ≡ true → b ≡ false
not-false false h = refl
not-false true h = absurd cc

pub not-true : {b : Bool} → b ≡ false → not b ≡ true
not-true p = cc
