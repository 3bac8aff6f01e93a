-- ===== src/Base/Tables.antt =====
-- A table as a list of rows, with SQL's SELECT, UPDATE and DELETE by a WHERE clause.
use mathlib.Core.Path.{◌≡◌, refl, subst}
use mathlib.Core.Logic.{inl, inr}
use mathlib.Core.Bool.{Bool, true, false}
use mathlib.Core.Option.{Option, none, some}
use mathlib.Core.List.{List, [], ◌∷◌, ◌++◌}
use workflow_runtime_core.Base.Tests.{if◌then◌else◌, is_some, Bool-cases}
use workflow_runtime_core.Base.Lists.{All}

module _ {ℓ} {A : Type ℓ} where
  -- SELECT * FROM rows WHERE p, in the order of the rows.
  abbrev pub select : (A → Bool) → List A → List A
  select p [] = []
  select p (x ∷ xs) = let rest = select p xs in if p x then x ∷ rest else rest

  -- The first row of that: the one row where `p` is a test on a unique key.
  abbrev pub find? : (A → Bool) → List A → Option A
  find? p [] = none
  find? p (x ∷ xs) = let rest = find? p xs in if p x then some x else rest

  -- UPDATE rows SET f WHERE p
  abbrev pub update : (A → Bool) → (A → A) → List A → List A
  update p f [] = []
  update p f (x ∷ xs) = (if p x then f x else x) ∷ update p f xs

  -- DELETE FROM rows WHERE p
  abbrev pub delete : (A → Bool) → List A → List A
  delete p [] = []
  delete p (x ∷ xs) = let rest = delete p xs in if p x then rest else x ∷ rest

  abbrev pub any : (A → Bool) → List A → Bool
  any p [] = false
  any p (x ∷ xs) = let rest = any p xs in if p x then true else rest

module _ {ℓ κ} {A : Type ℓ} (P : A → Type κ) where
  pub All-update :
      (p : A → Bool) (f : A → A) (xs : List A)
      → ((a : A) → p a ≡ true → P a → P (f a))
      → All P xs
      → All P (update p f xs)
  All-update p f [] k h = tt
  All-update p f (x ∷ xs) k h = elim (Bool-cases (p x)) [
    | inl e ↦ (rw e (k x e h.0), All-update p f xs k h.1)
    | inr e ↦ (rw e h.0, All-update p f xs k h.1)
  ]

  pub All-delete : (p : A → Bool) (xs : List A) → All P xs → All P (delete p xs)
  All-delete p [] h = tt
  All-delete p (x ∷ xs) h = elim (Bool-cases (p x)) [
    | inl e ↦ rw e (All-delete p xs h.1)
    | inr e ↦ rw e (h.0, All-delete p xs h.1)
  ]

  pub All-find : (p : A → Bool) (xs : List A) (a : A) → All P xs → find? p xs ≡ some a → P a
  All-find p [] a h e = cc
  All-find p (x ∷ xs) a h e = elim (Bool-cases (p x)) [
    | inl t ↦ subst P (cc (rw t at e)) h.0
    | inr t ↦ All-find p xs a h.1 (rw t at e)
  ]

module _ {ℓ} {A : Type ℓ} (p : A → Bool) where
  pub is_some-find : (xs : List A) → is_some (find? p xs) ≡ any p xs
  is_some-find [] = refl
  is_some-find (x ∷ xs) = elim (Bool-cases (p x)) [ inl e ↦ rw e | inr e ↦ rw e (is_some-find xs) ]

  pub any-append : (xs ys : List A) → any p (xs ++ ys) ≡ (if any p xs then true else any p ys)
  any-append [] ys = refl
  any-append (x ∷ xs) ys = elim (Bool-cases (p x)) [
    | inl e ↦ rw e
    | inr e ↦ rw e (any-append xs ys)
  ]

  pub find-append :
      (xs ys : List A) → find? p (xs ++ ys) ≡ (if any p xs then find? p xs else find? p ys)
  find-append [] ys = refl
  find-append (x ∷ xs) ys = elim (Bool-cases (p x)) [
    | inl e ↦ rw e
    | inr e ↦ rw e (find-append xs ys)
  ]

-- The row of a SELECT by key after an UPDATE that keeps the key.
abbrev pub hit {ℓ} : {A : Type ℓ} → (A → Bool) → (A → A) → Option A → Option A
hit p f none = none
hit p f (some x) = some (if p x then f x else x)

module _ {ℓ} {A : Type ℓ} (q p : A → Bool) where
  pub find-update :
      (f : A → A) (xs : List A)
      → ((x : A) → q (f x) ≡ q x)
      → find? q (update p f xs) ≡ hit p f (find? q xs)
  find-update f [] keeps = refl
  find-update f (x ∷ xs) keeps = elim (Bool-cases (q x)) [
    | inl e ↦ elim (Bool-cases (p x)) [
      | inl t ↦ rw (t, keeps x) (rw (e, t))
      | inr t ↦ rw (t, e) (rw t)
    ]
    | inr e ↦ elim (Bool-cases (p x)) [
      | inl t ↦ rw (t, keeps x) (rw e (find-update f xs keeps))
      | inr t ↦ rw (t, e) (find-update f xs keeps)
    ]
  ]

  -- A row that stays is still the first of its key.
  pub find-delete :
      (xs : List A) (x : A) → find? q xs ≡ some x → p x ≡ false → find? q (delete p xs) ≡ some x
  find-delete [] x found stays = cc found
  find-delete (y ∷ xs) x found stays = elim (Bool-cases (q y)) [
    | inl e ↦ let same : y ≡ x = cc (rw e at found) in rw same (rw stays (rw (← same) (rw e)))
    | inr e ↦ elim (Bool-cases (p y)) [
      | inl t ↦ rw t (find-delete xs x (rw e at found) stays)
      | inr t ↦ rw (t, e) (find-delete xs x (rw e at found) stays)
    ]
  ]
