-- ===== src/Gds/TrustLists/Query.antt =====
-- What the SQL of gds/app/db.py asks of its tables: ORDER BY, LIMIT 1, joins.
use opcua_implementaion.Prelude.{
  ℕ, Bool, true, false, ◌||◌, Option, none, some, List, [], ◌∷◌, ◌++◌, leb, ◌==◌, number_eq, any,
  where_list, if◌then◌else◌, ◌≡◌, refl, arith, any-append,
}

module _ {ℓ} {A : Type ℓ} where
  -- The row that ORDER BY puts first, by a test of one row coming before another; among equal rows
  -- the one inserted first.
  abbrev pub best : (A → A → Bool) → A → List A → A
  best before x [] = x
  best before x (y ∷ ys) = best before (if before y x then y else x) ys

  -- `ORDER BY ... LIMIT 1`
  abbrev pub first_by : (A → A → Bool) → List A → Option A
  first_by before [] = none
  first_by before (x ∷ xs) = some (best before x xs)

  abbrev pub insert_by : (A → A → Bool) → A → List A → List A
  insert_by before x [] = x ∷ []
  insert_by before x (y ∷ ys) = if before y x then y ∷ insert_by before x ys else x ∷ y ∷ ys

  -- `ORDER BY`
  abbrev pub order_by : (A → A → Bool) → List A → List A
  order_by before [] = []
  order_by before (x ∷ xs) = insert_by before x (order_by before xs)

  any-insert_by :
      (before : A → A → Bool) (p : A → Bool) (x : A) (xs : List A)
      → any p (insert_by before x xs) ≡ (p x || any p xs)
  any-insert_by before p x [] = refl
  any-insert_by before p x (y ∷ ys) = ground (arith, any-insert_by before p x ys)

  -- A sort has the rows that it was given.
  pub any-order_by :
      (before : A → A → Bool) (p : A → Bool) (xs : List A) → any p (order_by before xs) ≡ any p xs
  any-order_by before p [] = refl
  any-order_by before p (x ∷ xs) =
      ground (arith, any-insert_by before p x (order_by before xs), any-order_by before p xs)

  best-append :
      (before : A → A → Bool) (x z : A) (ys : List A)
      → best before x (ys ++ z ∷ []) ≡ (if before z (best before x ys) then z else best before x ys)
  best-append before x z [] = refl
  best-append before x z (y ∷ ys) = best-append before (if before y x then y else x) z ys

  -- A row that comes before every other is the first of the table that it is added to.
  pub first_by-append :
      (before : A → A → Bool) (z : A) (xs : List A)
      → ((y : A) → first_by before xs ≡ some y → before z y ≡ true)
      → first_by before (xs ++ z ∷ []) ≡ some z
  first_by-append before z [] h = refl
  first_by-append before z (x ∷ xs) h =
      ground (arith, best-append before x z xs, h (best before x xs) refl)

  pub where_list-append :
      (p : A → Bool) (xs ys : List A) → where_list p (xs ++ ys) ≡ where_list p xs ++ where_list p ys
  where_list-append p [] ys = refl
  where_list-append p (x ∷ xs) ys = ground (arith, where_list-append p xs ys)

-- The rows that a join pairs with each row of a table.
abbrev pub flat_map {ℓ} : {A B : Type ℓ} → (A → List B) → List A → List B
flat_map f [] = []
flat_map f (x ∷ xs) = f x ++ flat_map f xs

-- `x in ids`
unfoldable pub contains : ℕ → List ℕ → Bool
contains x ids = any (λ y. y == x) ids

-- `sorted(ids)`
unfoldable pub sorted : List ℕ → List ℕ
sorted ids = order_by leb ids

pub contains-sorted : (x : ℕ) (ids : List ℕ) → contains x (sorted ids) ≡ contains x ids
unfolding contains sorted
contains-sorted x ids = any-order_by leb (λ y. y == x) ids

-- `current == desired`
abbrev pub same_ids : List ℕ → List ℕ → Bool
same_ids [] [] = true
same_ids [] (y ∷ ys) = false
same_ids (x ∷ xs) [] = false
same_ids (x ∷ xs) (y ∷ ys) = if x == y then same_ids xs ys else false

pub same_ids_equal : (xs ys : List ℕ) → same_ids xs ys ≡ true → xs ≡ ys
same_ids_equal [] [] h = refl
same_ids_equal [] (y ∷ ys) h = ground arith
same_ids_equal (x ∷ xs) [] h = ground arith
same_ids_equal (x ∷ xs) (y ∷ ys) h = let rest = same_ids_equal xs ys in ground arith

pub contains-append :
    (x : ℕ) (xs ys : List ℕ) → contains x (xs ++ ys) ≡ (contains x xs || contains x ys)
unfolding contains
contains-append x xs ys = any-append (λ y. y == x) xs ys
