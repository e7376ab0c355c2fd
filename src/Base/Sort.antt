-- ===== src/Base/Sort.antt =====
-- ORDER BY: the rows in the order of a strict comparison `before`, equal rows as they stood.
use Prim.Native.Nat.{ℕ, zero, suc}
use mathlib.Core.Path.{◌≡◌, refl, ◌∙◌}
use mathlib.Core.Logic.{inl, inr}
use mathlib.Core.Bool.{Bool, true, false}
use mathlib.Core.List.{List, [], ◌∷◌}
use native.Mathlib.Omega.{arith}
use vortex_portal.Base.Tests.{if◌then◌else◌, Bool-cases}
use vortex_portal.Base.Lists.{length, All, take, drop}
use vortex_portal.Base.Table.{matches, delete, All-delete}

module _ {ℓ} {A : Type ℓ} (before : A → A → Bool) where
  pub insert : A → List A → List A
  insert x [] = x ∷ []
  insert x (y ∷ ys) = let rest = insert x ys in if before y x then y ∷ rest else x ∷ y ∷ ys

  unfoldable pub order_by : List A → List A
  unfolding insert
  order_by [] = []
  order_by (x ∷ xs) = insert x (order_by xs)

  -- No later row comes before an earlier one.
  abbrev pub IsOrdered : List A → Type 0
  IsOrdered [] = Unit
  IsOrdered (x ∷ xs) = All (λ y. before y x ≡ false) xs × IsOrdered xs

module _ {ℓ} {A : Type ℓ} (before : A → A → Bool) where
  matches-insert :
      (p : A → Bool) (x : A) (xs : List A) → matches p (insert before x xs) ≡ matches p (x ∷ xs)
  unfolding insert matches
  matches-insert p x [] = refl
  matches-insert p x (y ∷ ys) = ground (arith, matches-insert p x ys)

  -- Sorting keeps every row, as often as it stands.
  pub matches-order_by :
      (p : A → Bool) (xs : List A) → matches p (order_by before xs) ≡ matches p xs
  unfolding order_by matches
  matches-order_by p [] = refl
  matches-order_by p (x ∷ xs) =
      matches-insert p x (order_by before xs) ∙ ground (arith, matches-order_by p xs)

  length-insert : (x : A) (xs : List A) → length (insert before x xs) ≡ suc (length xs)
  unfolding insert
  length-insert x [] = refl
  length-insert x (y ∷ ys) = ground (arith, length-insert x ys)

  pub length-order_by : (xs : List A) → length (order_by before xs) ≡ length xs
  unfolding order_by
  length-order_by [] = refl
  length-order_by (x ∷ xs) = omega (arith, length-insert x (order_by before xs), length-order_by xs)

  All-insert {κ} :
      (P : A → Type κ) (x : A) (xs : List A) → P x → All P xs → All P (insert before x xs)
  unfolding insert
  All-insert P x [] h k = (h, tt)
  All-insert P x (y ∷ ys) h k = elim (Bool-cases (before y x)) [
    | inl e ↦ rw e (k.0, All-insert P x ys h k.1)
    | inr e ↦ rw e (h, k)
  ]

  pub All-order_by {κ} : (P : A → Type κ) (xs : List A) → All P xs → All P (order_by before xs)
  unfolding order_by
  All-order_by P [] h = tt
  All-order_by P (x ∷ xs) h = All-insert P x (order_by before xs) h.0 (All-order_by P xs h.1)

  module _ (irreflexive : (x y : A) → before x y ≡ true → before y x ≡ false)
      (transitive : (x y z : A)
        → before y x ≡ false
        → before z y ≡ false
        → before z x ≡ false) where
    All-weaken :
        (x y : A) (ys : List A)
        → before y x ≡ false
        → All (λ z. before z y ≡ false) ys
        → All (λ z. before z x ≡ false) ys
    All-weaken x y [] h k = tt
    All-weaken x y (z ∷ zs) h k = (transitive x y z h k.0, All-weaken x y zs h k.1)

    insert-IsOrdered :
        (x : A) (xs : List A) → IsOrdered before xs → IsOrdered before (insert before x xs)
    unfolding insert
    insert-IsOrdered x [] h = (tt, tt)
    insert-IsOrdered x (y ∷ ys) h = elim (Bool-cases (before y x)) [
      | inl e ↦ rw e (
        All-insert (λ z. before z y ≡ false) x ys (irreflexive y x e) h.0,
        insert-IsOrdered x ys h.1,
      )
      | inr e ↦ rw e ((e, All-weaken x y ys e h.0), h)
    ]

    pub order_by-IsOrdered : (xs : List A) → IsOrdered before (order_by before xs)
    unfolding order_by
    order_by-IsOrdered [] = tt
    order_by-IsOrdered (x ∷ xs) = insert-IsOrdered x (order_by before xs) (order_by-IsOrdered xs)

  -- What stands behind the first `n` rows comes before none of them.
  pub All-drop {κ} : (P : A → Type κ) (n : ℕ) (xs : List A) → All P xs → All P (drop n xs)
  All-drop P zero xs h = h
  All-drop P (suc n) [] h = tt
  All-drop P (suc n) (x ∷ xs) h = All-drop P n xs h.1

  pub take-before-drop :
      (n : ℕ) (xs : List A)
      → IsOrdered before xs
      → All (λ x. All (λ y. before y x ≡ false) (drop n xs)) (take n xs)
  take-before-drop zero xs h = tt
  take-before-drop (suc n) [] h = tt
  take-before-drop (suc n) (x ∷ xs) h =
      (All-drop (λ y. before y x ≡ false) n xs h.0, take-before-drop n xs h.1)

module _ {ℓ} {A : Type ℓ} (before : A → A → Bool)
    (irreflexive : (x y : A) → before x y ≡ true → before y x ≡ false)
    (transitive : (x y z : A) → before y x ≡ false → before z y ≡ false → before z x ≡ false) where
  -- A row that none comes before goes to the front.
  insert_front :
      (x : A) (ys : List A) → All (λ y. before y x ≡ false) ys → insert before x ys ≡ x ∷ ys
  unfolding insert
  insert_front x [] h = refl
  insert_front x (y ∷ ys) h = rw h.0

  All-delete_weaken :
      (q : A → Bool) (x y : A) (ys : List A)
      → before y x ≡ false
      → All (λ z. before z y ≡ false) ys
      → All (λ z. before z x ≡ false) (delete q ys)
  All-delete_weaken q x y ys h k =
      All-delete (λ z. before z x ≡ false) q ys
        (All-weaken before irreflexive transitive x y ys h k)

  delete-insert :
      (q : A → Bool) (x : A) (ys : List A)
      → IsOrdered before ys
      → delete q (insert before x ys) ≡ (if q x then delete q ys else insert before x (delete q ys))
  unfolding insert delete
  delete-insert q x [] h = ground arith
  delete-insert q x (y ∷ ys) h = ground (
    arith,
    delete-insert q x ys h.1,
    insert_front x (delete q ys),
    λ (e : before y x ≡ false). insert_front x (delete q ys) (All-delete_weaken q x y ys e h.0),
  )

  -- To delete and then sort is to sort and then delete.
  pub order_by-delete :
      (q : A → Bool) (xs : List A) → order_by before (delete q xs) ≡ delete q (order_by before xs)
  unfolding order_by delete
  order_by-delete q [] = refl
  order_by-delete q (x ∷ xs) =
      let step =
        delete-insert q x (order_by before xs)
          (order_by-IsOrdered before irreflexive transitive xs) in
      ground (arith, step, order_by-delete q xs)
