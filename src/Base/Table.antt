-- ===== src/Base/Table.antt =====
-- A table of a database as the list of its rows, oldest first, and the statements that the hub
-- runs on one: SELECT, UPDATE and DELETE with a WHERE test.
use Prim.Native.Nat.{ℕ, suc, ◌+◌, ◌≤◌}
use mathlib.Core.Path.{◌≡◌, refl, sym, subst, ◌∙◌}
use mathlib.Core.Logic.{◌⊎◌, inl, inr}
use mathlib.Core.Bool.{Bool, true, false, ◌&&◌}
use mathlib.Core.Option.{Option, none, some}
use mathlib.Core.List.{List, [], ◌∷◌, ◌++◌}
use native.Mathlib.Omega.{arith}
use vortex_portal.Base.Tests.{if◌then◌else◌, ltb, is_some, Bool-cases}
use vortex_portal.Base.Lists.{All}

module _ {ℓ} {A : Type ℓ} where
  -- SELECT … WHERE
  unfoldable pub select : (A → Bool) → List A → List A
  select p [] = []
  select p (x ∷ xs) = let rest = select p xs in if p x then x ∷ rest else rest

  -- SELECT … WHERE, fetchone()
  unfoldable pub find : (A → Bool) → List A → Option A
  find p [] = none
  find p (x ∷ xs) = let rest = find p xs in if p x then some x else rest

  -- DELETE … WHERE
  unfoldable pub delete : (A → Bool) → List A → List A
  delete p [] = []
  delete p (x ∷ xs) = let rest = delete p xs in if p x then rest else x ∷ rest

  -- UPDATE … SET … WHERE
  unfoldable pub update : (A → Bool) → (A → A) → List A → List A
  update p f [] = []
  update p f (x ∷ xs) = (if p x then f x else x) ∷ update p f xs

  -- rowcount of an UPDATE or a DELETE
  unfoldable pub matches : (A → Bool) → List A → ℕ
  matches p [] = 0
  matches p (x ∷ xs) = let rest = matches p xs in if p x then suc rest else rest

module _ {ℓ} {A : Type ℓ} where
  -- `cur.rowcount > 0` says that some row fits.
  pub matches-find : (p : A → Bool) (xs : List A) → ltb 0 (matches p xs) ≡ is_some (find p xs)
  unfolding matches find
  matches-find p [] = refl
  matches-find p (x ∷ xs) = ground (arith, matches-find p xs)

  pub find-holds : (p : A → Bool) (xs : List A) (a : A) → find p xs ≡ some a → p a ≡ true
  unfolding find
  find-holds p [] a h = ground arith
  find-holds p (x ∷ xs) a h = ground (arith, find-holds p xs a)

  pub find-append_none :
      (p : A → Bool) (xs ys : List A) → find p xs ≡ none → find p (xs ++ ys) ≡ find p ys
  unfolding find
  find-append_none p [] ys h = refl
  find-append_none p (x ∷ xs) ys h = ground (arith, find-append_none p xs ys)

  pub find-append_some :
      (p : A → Bool) (xs ys : List A) (a : A) → find p xs ≡ some a → find p (xs ++ ys) ≡ some a
  unfolding find
  find-append_some p [] ys a h = ground arith
  find-append_some p (x ∷ xs) ys a h = ground (arith, find-append_some p xs ys a)

  pub find-delete_self : (p : A → Bool) (xs : List A) → find p (delete p xs) ≡ none
  unfolding find delete
  find-delete_self p [] = refl
  find-delete_self p (x ∷ xs) = ground (arith, find-delete_self p xs)

  -- A deletion hides none of the rows that it spares.
  pub find-delete_keeps :
      (q p : A → Bool) (xs : List A)
      → ((a : A) → q a ≡ true → p a ≡ false)
      → find q (delete p xs) ≡ find q xs
  unfolding find delete
  find-delete_keeps q p [] h = refl
  find-delete_keeps q p (x ∷ xs) h = ground (arith, find-delete_keeps q p xs h, h x)

  -- A deletion makes no row visible.
  pub find-delete_unseen :
      (q p : A → Bool) (xs : List A) → find q xs ≡ none → find q (delete p xs) ≡ none
  unfolding find delete
  find-delete_unseen q p [] h = refl
  find-delete_unseen q p (x ∷ xs) h = ground (arith, find-delete_unseen q p xs)

  -- An update of rows that the query does not see, before or after, hides nothing.
  pub find-update_keeps :
      (q p : A → Bool) (f : A → A) (xs : List A)
      → ((a : A) → p a ≡ true → q a ≡ false)
      → ((a : A) → p a ≡ true → q (f a) ≡ false)
      → find q (update p f xs) ≡ find q xs
  unfolding find update
  find-update_keeps q p f [] h k = refl
  find-update_keeps q p f (x ∷ xs) h k = ground (arith, find-update_keeps q p f xs h k, h x, k x)

  -- After an update whose rows leave the query, the query finds nothing among them.
  pub find-update_unseen :
      (q p : A → Bool) (f : A → A) (xs : List A)
      → ((a : A) → q a ≡ true → p a ≡ true)
      → ((a : A) → p a ≡ true → q (f a) ≡ false)
      → find q (update p f xs) ≡ none
  unfolding find update
  find-update_unseen q p f [] h k = refl
  find-update_unseen q p f (x ∷ xs) h k = ground (arith, find-update_unseen q p f xs h k, h x, k x)

  -- The first row that a query finds, after an update that keeps every row where it is seen.
  pub find-update_same :
      (q p : A → Bool) (f : A → A) (xs : List A)
      → ((a : A) → q (f a) ≡ q a)
      → ((a : A) → q a ≡ true → p a ≡ true)
      → (r : A) → find q xs ≡ some r
      → find q (update p f xs) ≡ some (f r)
  unfolding find update
  find-update_same q p f [] h k r e = ground arith
  find-update_same q p f (x ∷ xs) h k r e =
      ground (arith, find-update_same q p f xs h k r, h x, k x)

  pub find-congr : (p q : A → Bool) (xs : List A) → ((a : A) → p a ≡ q a) → find p xs ≡ find q xs
  unfolding find
  find-congr p q [] h = refl
  find-congr p q (x ∷ xs) h = ground (arith, find-congr p q xs h, h x)

  -- A query for less finds nothing where the wider one does.
  pub find_mono :
      (q p : A → Bool) (xs : List A)
      → ((a : A) → q a ≡ true → p a ≡ true)
      → find p xs ≡ none
      → find q xs ≡ none
  unfolding find
  find_mono q p [] h e = refl
  find_mono q p (x ∷ xs) h e = ground (arith, find_mono q p xs h, h x)

  pub All-delete {κ} :
      (P : A → Type κ) (p : A → Bool) (xs : List A) → All P xs → All P (delete p xs)
  unfolding delete
  All-delete P p [] h = tt
  All-delete P p (x ∷ xs) h = elim (Bool-cases (p x)) [
    | inl e ↦
        subst (λ b. All P (if b then delete p xs else x ∷ delete p xs)) (sym e)
          (All-delete P p xs h.1)
    | inr e ↦
        subst (λ b. All P (if b then delete p xs else x ∷ delete p xs)) (sym e)
          (h.0, All-delete P p xs h.1)
  ]

module _ {ℓ} {A : Type ℓ} where
  -- The first row that a query finds stays first, if a deletion spares it.
  pub find-delete_spared :
      (p q : A → Bool) (xs : List A) (r : A)
      → find p xs ≡ some r
      → q r ≡ false
      → find p (delete q xs) ≡ some r
  unfolding find delete
  find-delete_spared p q [] r e h = ground arith
  find-delete_spared p q (x ∷ xs) r e h = ground (arith, find-delete_spared p q xs r)

  -- So too under an update that spares it, and that moves no row in or out of the query.
  pub find-update_spared :
      (p q : A → Bool) (f : A → A) (xs : List A) (r : A)
      → ((a : A) → p (f a) ≡ p a)
      → find p xs ≡ some r
      → q r ≡ false
      → find p (update q f xs) ≡ some r
  unfolding find update
  find-update_spared p q f [] r k e h = ground arith
  find-update_spared p q f (x ∷ xs) r k e h = ground (arith, find-update_spared p q f xs r k, k x)

  -- The rows that a query sees are replaced by one that it sees.
  pub find-update_hit :
      (p : A → Bool) (new : A) (xs : List A) (r : A)
      → p new ≡ true
      → find p xs ≡ some r
      → find p (update p (λ _. new) xs) ≡ some new
  unfolding find update
  find-update_hit p new [] r k e = ground arith
  find-update_hit p new (x ∷ xs) r k e = ground (arith, find-update_hit p new xs r k)

  pub find_head : (p : A → Bool) (x : A) (xs : List A) → p x ≡ true → find p (x ∷ xs) ≡ some x
  unfolding find
  find_head p x xs h = ground arith

  -- The first row of a query that passes one more test is the first that passes both.
  pub find_narrow :
      (p q : A → Bool) (xs : List A) (r : A)
      → find p xs ≡ some r
      → q r ≡ true
      → find (λ a. p a && q a) xs ≡ some r
  unfolding find
  find_narrow p q [] r e h = ground arith
  find_narrow p q (x ∷ xs) r e h = ground (arith, find_narrow p q xs r)

  -- A row that fits another query makes that one find something.
  pub find-is_some :
      (p q : A → Bool) (xs : List A) (r : A)
      → find p xs ≡ some r
      → q r ≡ true
      → is_some (find q xs) ≡ true
  unfolding find
  find-is_some p q [] r e h = ground arith
  find-is_some p q (x ∷ xs) r e h = ground (arith, find-is_some p q xs r)

  -- The first row of a query, under an update that reaches it and moves no row in or out.
  pub find-update_first :
      (p q : A → Bool) (f : A → A) (xs : List A) (r : A)
      → ((a : A) → p (f a) ≡ p a)
      → find p xs ≡ some r
      → q r ≡ true
      → find p (update q f xs) ≡ some (f r)
  unfolding find update
  find-update_first p q f [] r k e h = ground arith
  find-update_first p q f (x ∷ xs) r k e h = ground (arith, find-update_first p q f xs r k, k x)

  pub matches-delete-le : (p q : A → Bool) (xs : List A) → matches p (delete q xs) ≤ matches p xs
  unfolding matches delete
  matches-delete-le p q [] = omega arith
  matches-delete-le p q (x ∷ xs) = ground (arith, matches-delete-le p q xs)

  pub matches-append :
      (p : A → Bool) (xs ys : List A) → matches p (xs ++ ys) ≡ matches p xs + matches p ys
  unfolding matches
  matches-append p [] ys = omega arith
  matches-append p (x ∷ xs) ys = ground (arith, matches-append p xs ys)

  pub matches_unseen : (p : A → Bool) (xs : List A) → find p xs ≡ none → matches p xs ≡ 0
  unfolding matches find
  matches_unseen p [] h = refl
  matches_unseen p (x ∷ xs) h = ground (arith, matches_unseen p xs)

  pub matches_zero : (p : A → Bool) (xs : List A) → matches p xs ≡ 0 → find p xs ≡ none
  unfolding matches find
  matches_zero p [] h = refl
  matches_zero p (x ∷ xs) h = ground (arith, matches_zero p xs)

  -- Where one row at most fits, and it fails a further test, none passes both.
  pub find_sole :
      (p q : A → Bool) (xs : List A) (r : A)
      → find p xs ≡ some r
      → matches p xs ≤ 1
      → q r ≡ false
      → find (λ a. p a && q a) xs ≡ none
  unfolding find matches
  find_sole p q [] r e m h = refl
  find_sole p q (x ∷ xs) r e m h = ground (
    arith,
    find_sole p q xs r,
    matches_zero p xs,
    find_mono (λ a. p a && q a) p xs (λ a k. ground arith),
  )

  -- An update that brings no row into a query that found nothing.
  pub find-update_absent :
      (q p : A → Bool) (f : A → A) (xs : List A)
      → ((a : A) → q (f a) ≡ true → q a ≡ true)
      → find q xs ≡ none
      → find q (update p f xs) ≡ none
  unfolding find update
  find-update_absent q p f [] k h = refl
  find-update_absent q p f (x ∷ xs) k h = ground (arith, find-update_absent q p f xs k, k x)

  -- A new last row that the query does not see.
  pub find-append_unseen :
      (p : A → Bool) (xs : List A) (x : A) → p x ≡ false → find p (xs ++ x ∷ []) ≡ find p xs
  unfolding find
  find-append_unseen p [] x h = ground arith
  find-append_unseen p (y ∷ xs) x h = ground (arith, find-append_unseen p xs x h)

  -- A new last row, where the query found nothing.
  pub find-append_new :
      (p : A → Bool) (xs : List A) (x : A)
      → find p xs ≡ none
      → p x ≡ true
      → find p (xs ++ x ∷ []) ≡ some x
  find-append_new p xs x h k = find-append_none p xs (x ∷ []) h ∙ find_head p x [] k

  -- What a query finds after a deletion was spared.
  pub find-delete_spares :
      (p q : A → Bool) (xs : List A) (r : A) → find p (delete q xs) ≡ some r → q r ≡ false
  unfolding find delete
  find-delete_spares p q [] r e = ground arith
  find-delete_spares p q (x ∷ xs) r e = ground (arith, find-delete_spares p q xs r)

  pub find-append_cases :
      (p : A → Bool) (xs : List A) (x r : A)
      → find p (xs ++ x ∷ []) ≡ some r
      → (find p xs ≡ some r) ⊎ (r ≡ x)
  unfolding find
  find-append_cases p [] x r e = ground arith
  find-append_cases p (y ∷ xs) x r e = ground (arith, find-append_cases p xs x r)

  pub update_unmatched :
      (p : A → Bool) (f : A → A) (xs : List A) → find p xs ≡ none → update p f xs ≡ xs
  unfolding update find
  update_unmatched p f [] h = refl
  update_unmatched p f (x ∷ xs) h = ground (arith, update_unmatched p f xs)

  pub delete_unmatched : (p : A → Bool) (xs : List A) → find p xs ≡ none → delete p xs ≡ xs
  unfolding delete find
  delete_unmatched p [] h = refl
  delete_unmatched p (x ∷ xs) h = ground (arith, delete_unmatched p xs)

  -- The rows that a query lists are those of before a deletion that spares them.
  pub select-delete_keeps :
      (q p : A → Bool) (xs : List A)
      → ((a : A) → q a ≡ true → p a ≡ false)
      → select q (delete p xs) ≡ select q xs
  unfolding select delete
  select-delete_keeps q p [] h = refl
  select-delete_keeps q p (x ∷ xs) h = ground (arith, select-delete_keeps q p xs h, h x)

  pub matches-select-le : (p q : A → Bool) (xs : List A) → matches p (select q xs) ≤ matches p xs
  unfolding matches select
  matches-select-le p q [] = omega arith
  matches-select-le p q (x ∷ xs) = ground (arith, matches-select-le p q xs)

  pub select-delete :
      (q p : A → Bool) (xs : List A) → select q (delete p xs) ≡ delete p (select q xs)
  unfolding select delete
  select-delete q p [] = refl
  select-delete q p (x ∷ xs) = ground (arith, select-delete q p xs)

  pub All-select {κ} :
      (P : A → Type κ) (p : A → Bool) (xs : List A) → All P xs → All P (select p xs)
  unfolding select
  All-select P p [] h = tt
  All-select P p (x ∷ xs) h = elim (Bool-cases (p x)) [
    | inl e ↦ rw e (h.0, All-select P p xs h.1)
    | inr e ↦ rw e (All-select P p xs h.1)
  ]

  pub All-selected : (p : A → Bool) (xs : List A) → All (λ a. p a ≡ true) (select p xs)
  unfolding select
  All-selected p [] = tt
  All-selected p (x ∷ xs) = elim (Bool-cases (p x)) [
    | inl e ↦ rw e (e, All-selected p xs)
    | inr e ↦ rw e (All-selected p xs)
  ]

  -- To delete the one row that fits leaves the queries alone that do not see it.
  pub select-delete_sole :
      (q p : A → Bool) (xs : List A) (r : A)
      → find p xs ≡ some r
      → matches p xs ≤ 1
      → q r ≡ false
      → select q (delete p xs) ≡ select q xs
  unfolding select delete find matches
  select-delete_sole q p [] r e m h = refl
  select-delete_sole q p (x ∷ xs) r e m h =
      ground (arith, select-delete_sole q p xs r, matches_zero p xs, delete_unmatched p xs)

  matches-middle :
      (p : A → Bool) (xs ys : List A) (y : A) → p y ≡ true → 1 ≤ matches p (xs ++ y ∷ ys)
  unfolding matches
  matches-middle p [] ys y e = ground arith
  matches-middle p (x ∷ xs) ys y e = ground (arith, matches-middle p xs ys y e)

  -- To delete the one row that fits takes it out of its place.
  pub delete-append_sole :
      (p : A → Bool) (xs ys : List A) (y : A)
      → p y ≡ true
      → matches p (xs ++ y ∷ ys) ≤ 1
      → delete p (xs ++ y ∷ ys) ≡ xs ++ ys
  unfolding delete matches
  delete-append_sole p [] ys y e m = ground (arith, matches_zero p ys, delete_unmatched p ys)
  delete-append_sole p (x ∷ xs) ys y e m =
      ground (arith, delete-append_sole p xs ys y e, matches-middle p xs ys y)
