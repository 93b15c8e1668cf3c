-- ===== src/Prelude/Sorting.antt =====
-- `sort` by a text key: a stable sort by code units. It keeps all elements, and the order in which
-- elements with distinct keys come in does not matter.
use mathlib.Core.List.Permᴰ
use mathlib.Core.List.{List, [], ◌∷◌, Permᴰ}
use mathlib.Core.Path.{◌≡◌, refl, ap, ◌∙◌, subst}
use mathlib.Core.Logic.{◌≢◌, inl, inr}
use Prim.Native.Nat.{suc}
use native.Mathlib.Omega.{arith}
use slvrn.Prelude.Tests.{if◌then◌else◌, Bool-cases}
use slvrn.Prelude.Lists.{All, length}
use slvrn.Prelude.Text.{Text}
use slvrn.Prelude.Order.{text_lt, text_lt_asymm, text_lt_trans, text_lt_total}

pub All-perm {ℓ κ} :
    {A : Type ℓ} (P : A → Type κ) {xs ys : List A} → Permᴰ xs ys → All P xs → All P ys
All-perm P Permᴰ.nil h = tt
All-perm P (Permᴰ.cons e d) (p, h) = (subst P e p, All-perm P d h)
All-perm P (Permᴰ.swap e f) (p, (q, h)) = (subst P f q, (subst P e p, h))
All-perm P (Permᴰ.trans d e) h = All-perm P e (All-perm P d h)

pub length-perm {ℓ} : {A : Type ℓ} {xs ys : List A} → Permᴰ xs ys → length xs ≡ length ys
length-perm Permᴰ.nil = refl
length-perm (Permᴰ.cons e d) = ap suc (length-perm d)
length-perm (Permᴰ.swap e f) = refl
length-perm (Permᴰ.trans d e) = length-perm d ∙ length-perm e

module _ {ℓ} {A : Type ℓ} (key : A → Text) where
  unfoldable pub insert : A → List A → List A
  insert i [] = i ∷ []
  insert i (j ∷ js) =
      let rest = j ∷ insert i js in if text_lt (key j) (key i) then rest else i ∷ j ∷ js

  unfoldable pub sort : List A → List A
  unfolding insert
  sort [] = []
  sort (i ∷ is) = insert i (sort is)

  insert-perm : (i : A) (l : List A) → Permᴰ (insert i l) (i ∷ l)
  unfolding insert
  insert-perm i [] = Permᴰ.refl (i ∷ [])
  insert-perm i (j ∷ js) = elim (Bool-cases (text_lt (key j) (key i))) [
    | inl after ↦ rw after (Permᴰ.trans (Permᴰ.cons refl (insert-perm i js)) (Permᴰ.swap refl refl))
    | inr before ↦ rw before (Permᴰ.refl (i ∷ j ∷ js))
  ]

  -- Nothing is lost or added.
  pub sort-perm : (l : List A) → Permᴰ (sort l) l
  unfolding sort
  sort-perm [] = Permᴰ.nil
  sort-perm (i ∷ is) = Permᴰ.trans (insert-perm i (sort is)) (Permᴰ.cons refl (sort-perm is))

  -- Two insertions of different ids commute.
  insert_comm :
      (i j : A) (l : List A) → (key i) ≢ (key j) → insert i (insert j l) ≡ insert j (insert i l)
  unfolding insert
  insert_comm i j [] ne = ground (
    arith,
    text_lt_total (key i) (key j) ne,
    text_lt_asymm (key i) (key j),
    text_lt_asymm (key j) (key i),
  )
  insert_comm i j (k ∷ l) ne = ground (
    arith,
    text_lt_total (key i) (key j) ne,
    text_lt_asymm (key i) (key j),
    text_lt_asymm (key j) (key i),
    text_lt_trans (key k) (key i) (key j),
    text_lt_trans (key k) (key j) (key i),
    insert_comm i j l ne,
  )

  abbrev pub DistinctKeys : List A → Type 0
  DistinctKeys [] = Unit
  DistinctKeys (i ∷ is) = All (λ (j : A). (key i) ≢ (key j)) is × DistinctKeys is

  pub DistinctKeys-perm : {xs ys : List A} → Permᴰ xs ys → DistinctKeys xs → DistinctKeys ys
  DistinctKeys-perm Permᴰ.nil h = tt
  DistinctKeys-perm (Permᴰ.cons {a} {b} {l₁} {l₂} e d) (p, h) = (
    subst (λ (x : A). All (λ (j : A). (key x) ≢ (key j)) l₂) e (All-perm _ d p),
    DistinctKeys-perm d h,
  )
  DistinctKeys-perm (Permᴰ.swap {a} {b} {a'} {b'} {l} e f) ((ne, p), (q, h)) = (
    ((λ x. ne (cc)), subst (λ (x : A). All (λ (j : A). (key x) ≢ (key j)) l) f q),
    (subst (λ (x : A). All (λ (j : A). (key x) ≢ (key j)) l) e p, h),
  )
  DistinctKeys-perm (Permᴰ.trans d e) h = DistinctKeys-perm e (DistinctKeys-perm d h)

  -- Lists of the same instructions in any order sort to one list, if the ids are distinct.
  pub sort_of_perm : {xs ys : List A} → Permᴰ xs ys → DistinctKeys xs → sort xs ≡ sort ys
  unfolding sort
  sort_of_perm Permᴰ.nil h = refl
  sort_of_perm (Permᴰ.cons e d) (p, h) = λ i. insert (e i) (sort_of_perm d h i)
  sort_of_perm (Permᴰ.swap {a} {b} {a'} {b'} {l} e f) ((ne, p), (q, h)) =
      insert_comm a b (sort l) ne ∙ (λ i. insert (f i) (insert (e i) (sort l)))
  sort_of_perm (Permᴰ.trans d e) h = sort_of_perm d h ∙ sort_of_perm e (DistinctKeys-perm d h)
