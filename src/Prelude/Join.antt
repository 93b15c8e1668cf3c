-- ===== src/Prelude/Join.antt =====
-- `fields.join(sep)` with a separator of one code unit, and why no two lists of fields that are free
-- of the separator have the same join.
use Prim.Native.Nat.{ℕ}
use mathlib.Core.Path.{◌≡◌, sym, ◌∙◌, ap}
use mathlib.Core.Logic.{◌≢◌}
use mathlib.Core.List.{List, [], ◌∷◌, ◌++◌, append-nil, append_assoc}
use native.Mathlib.Omega.{arith}
use slvrn.Prelude.Tests.{◌==◌, if◌then◌else◌}
use slvrn.Prelude.Lists.{All}
use slvrn.Prelude.Text.{Text}

unfoldable pub join : ℕ → List Text → Text
join sep [] = []
join sep (x ∷ []) = x
join sep (x ∷ (y ∷ ys)) = x ++ (sep ∷ join sep (y ∷ ys))

-- The text holds no `sep`.
abbrev pub IsFree : ℕ → Text → Type 0
IsFree sep = All (λ c. c ≢ sep)

-- `text.split(sep)`: the field at the head, and the fields after it.
split_from : ℕ → Text → Text → List Text
split_from sep cur [] = cur ∷ []
split_from sep cur (c ∷ s) =
    let closed = cur ∷ split_from sep [] s in
    let longer = split_from sep (cur ++ c ∷ []) s in if c == sep then closed else longer

split_from-free : (sep : ℕ) (cur x : Text) → IsFree sep x → split_from sep cur x ≡ (cur ++ x) ∷ []
unfolding split_from
split_from-free sep cur [] h = rw append-nil
split_from-free sep cur (c ∷ s) (p, h) =
    ground (arith, split_from-free sep (cur ++ c ∷ []) s h, append_assoc cur (c ∷ []) s)

split_from-sep :
    (sep : ℕ) (cur x rest : Text)
    → IsFree sep x
    → split_from sep cur (x ++ sep ∷ rest) ≡ (cur ++ x) ∷ split_from sep [] rest
unfolding split_from
split_from-sep sep cur [] rest h = ground (arith, append-nil cur)
split_from-sep sep cur (c ∷ s) rest (p, h) =
    ground (arith, split_from-sep sep (cur ++ c ∷ []) s rest h, append_assoc cur (c ∷ []) s)

split-join :
    (sep : ℕ) (x : Text) (xs : List Text)
    → All (IsFree sep) (x ∷ xs)
    → split_from sep [] (join sep (x ∷ xs)) ≡ x ∷ xs
unfolding join
split-join sep x [] (h, _) = split_from-free sep [] x h
split-join sep x (y ∷ ys) (h, hs) =
    split_from-sep sep [] x (join sep (y ∷ ys)) h ∙ ap (λ t. x ∷ t) (split-join sep y ys hs)

-- Joins of separator-free fields are equal only for equal fields.
pub join_inj :
    (sep : ℕ) (x y : Text) (xs ys : List Text)
    → All (IsFree sep) (x ∷ xs)
    → All (IsFree sep) (y ∷ ys)
    → join sep (x ∷ xs) ≡ join sep (y ∷ ys)
    → ◌≡◌ {A = List Text} (x ∷ xs) (y ∷ ys)
join_inj sep x y xs ys h k e =
    sym (split-join sep x xs h) ∙ ap (split_from sep []) e ∙ split-join sep y ys k

pub IsFree-append : (sep : ℕ) (x y : Text) → IsFree sep x → IsFree sep y → IsFree sep (x ++ y)
IsFree-append sep [] y h k = k
IsFree-append sep (c ∷ x) y (p, h) k = (p, IsFree-append sep x y h k)

-- A join is free of another separator if its fields are.
pub join-IsFree :
    (sep other : ℕ) (xs : List Text)
    → sep ≢ other
    → All (IsFree other) xs
    → IsFree other (join sep xs)
unfolding join
join-IsFree sep other [] ne h = tt
join-IsFree sep other (x ∷ []) ne (h, _) = h
join-IsFree sep other (x ∷ (y ∷ ys)) ne (h, hs) =
    IsFree-append other x _ h (ne, join-IsFree sep other (y ∷ ys) ne hs)
