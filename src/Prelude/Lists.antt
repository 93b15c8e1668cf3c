-- ===== src/Prelude/Lists.antt =====
-- Lists measured by native numbers, membership tests, and maps as association lists.
use Prim.Native.Nat.{ℕ, suc}
use mathlib.Core.Path.{◌≡◌, refl, sym, subst}
use mathlib.Core.Bool.{Bool, true, false, ◌&&◌, ◌||◌}
use mathlib.Core.Option.{Option, none, some}
use mathlib.Core.List.{List, [], ◌∷◌, map, Memᴰ}
use native.Mathlib.Omega.{arith}
use slvrn.Prelude.Tests.{if◌then◌else◌, is_yes}

module _ {ℓ} {A : Type ℓ} where
  abbrev pub length : List A → ℕ
  length [] = 0
  length (x ∷ xs) = suc (length xs)

  abbrev pub keep_if : (A → Bool) → List A → List A
  keep_if p [] = []
  keep_if p (x ∷ xs) = if p x then x ∷ keep_if p xs else keep_if p xs

  abbrev pub all : (A → Bool) → List A → Bool
  all p [] = true
  all p (x ∷ xs) = p x && all p xs

  -- `includes`, `Set.has`.
  abbrev pub contains : Discrete A → A → List A → Bool
  contains dec a [] = false
  contains dec a (x ∷ xs) = is_yes (dec a x) || contains dec a xs

module _ {ℓ κ} {A : Type ℓ} (P : A → Type κ) where
  abbrev pub All : List A → Type κ
  All [] = Unit
  All (x ∷ xs) = P x × All xs

  pub All-Mem : {a : A} (xs : List A) → All xs → Memᴰ a xs → P a
  All-Mem [] ps m = elim m [ ]
  All-Mem (x ∷ xs) (p, ps) (Memᴰ.head e) = subst P (sym e) p
  All-Mem (x ∷ xs) (p, ps) (Memᴰ.tail m) = All-Mem xs ps m

-- A `Map`: `set` overwrites in place or appends, `get` finds the one entry of the key.
module _ {ℓ κ} {K : Type ℓ} {V : Type κ} (dec : Discrete K) where
  abbrev pub get : K → List (K × V) → Option V
  get k [] = none
  get k ((j, v) ∷ m) = if is_yes (dec k j) then some v else get k m

  abbrev pub put : K → V → List (K × V) → List (K × V)
  put k v [] = (k, v) ∷ []
  put k v ((j, w) ∷ m) = if is_yes (dec k j) then (j, v) ∷ m else (j, w) ∷ put k v m

  pub get-map :
      (f : K → V) (k : K) (xs : List K)
      → get k (map (λ x. (x, f x)) xs) ≡ (if contains dec k xs then some (f k) else none)
  get-map f k [] = refl
  get-map f k (x ∷ xs) = ground (arith, get-map f k xs)

pub some_inj {ℓ} : {A : Type ℓ} {x y : A} → some x ≡ some y → x ≡ y
some_inj e = cc
