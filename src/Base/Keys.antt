-- ===== src/Base/Keys.antt =====
-- Tables whose rows have distinct keys, and the rows chosen by a SELECT … LIMIT.
use mathlib.Core.Path.{◌≡◌, refl, sym, ap, ◌∙◌, subst}
use mathlib.Core.Logic.{◌⊎◌, inl, inr}
use mathlib.Core.Bool.{Bool, true, false}
use mathlib.Core.List.{List, [], ◌∷◌, ◌++◌}
use Prim.Native.Nat.{ℕ}
use Prim.Native.String.{String}
use native.Mathlib.Omega.{arith}
use text.Mathlib.TextEquality.{eq_iff}
use workflow_runtime_core.Base.Tests.{if◌then◌else◌, Bool-cases, str_eq}
use workflow_runtime_core.Base.Lists.{All, All-map, All-append, take}
use workflow_runtime_core.Base.Tables.{select, update, delete, any, All-delete}
use workflow_runtime_core.Base.Sort.{sort_by, All-sort_by, All-take}

abbrev pub In : {A : Type 0} → A → List A → Type 0
In a [] = ⊥
In a (x ∷ xs) = (a ≡ x) ⊎ In a xs

pub In-all : {A : Type 0} (P : A → Type 0) (a : A) (xs : List A) → In a xs → All P xs → P a
In-all P a [] i h = absurd i
In-all P a (x ∷ xs) (inl e) h = subst P (sym e) h.0
In-all P a (x ∷ xs) (inr i) h = In-all P a xs i h.1

module _ {A : Type 0} where
  All-In : (xs : List A) → All (λ a. In a xs) xs
  All-In [] = tt
  All-In (x ∷ xs) =
      (inl refl, All-map (λ a. In a xs) (λ a. In a (x ∷ xs)) xs (λ a i. inr i) (All-In xs))

  All-select :
      (P : A → Type 0) (p : A → Bool) (xs : List A)
      → All P xs
      → All (λ a. (p a ≡ true) × P a) (select p xs)
  All-select P p [] h = tt
  All-select P p (x ∷ xs) h = elim (Bool-cases (p x)) [
    | inl e ↦ rw e ((e, h.0), All-select P p xs h.1)
    | inr e ↦ rw e (All-select P p xs h.1)
  ]

  -- What ORDER BY and LIMIT choose among the rows of a WHERE clause.
  pub All-chosen :
      (before : A → A → Bool) (p : A → Bool) (n : ℕ) (xs : List A)
      → All (λ a. (p a ≡ true) × In a xs) (take n (sort_by before (select p xs)))
  All-chosen before p n xs =
      All-take (λ a. (p a ≡ true) × In a xs) before n _
        (All-sort_by (λ a. (p a ≡ true) × In a xs) before (select p xs)
          (All-select (λ a. In a xs) p xs (All-In xs)))

module _ {A : Type 0} (key : A → String) where
  abbrev pub same_key : A → A → Bool
  same_key a x = str_eq (key x) (key a)

  abbrev pub DistinctKeys : List A → Type 0
  DistinctKeys [] = Unit
  DistinctKeys (x ∷ xs) = All (λ a. same_key a x ≡ false) xs × DistinctKeys xs

  pub In-same_key :
      (a b : A) (xs : List A) → DistinctKeys xs → In a xs → In b xs → same_key b a ≡ true → a ≡ b
  In-same_key a b [] d i j e = absurd i
  In-same_key a b (x ∷ xs) d (inl p) (inl q) e = p ∙ sym q
  In-same_key a b (x ∷ xs) d (inl p) (inr j) e =
      let apart = In-all (λ c. same_key c x ≡ false) b xs j d.0 in cc (apart, e, p)
  In-same_key a b (x ∷ xs) d (inr i) (inl q) e =
      let apart = In-all (λ c. same_key c x ≡ false) a xs i d.0 in
      ground (
        arith,
        apart,
        e,
        ap key q,
        eq_iff (key a) (key b),
        eq_iff (key x) (key a),
        eq_iff (key a) (key x),
      )
  In-same_key a b (x ∷ xs) d (inr i) (inr j) e = In-same_key a b xs d.1 i j e

  abbrev pub among : List A → A → Bool
  among chosen a = any (same_key a) chosen

  among_one :
      (P : A → Type 0) (rows chosen : List A) (a : A)
      → DistinctKeys rows
      → In a rows
      → All (λ c. P c × In c rows) chosen
      → among chosen a ≡ true
      → P a
  among_one P rows [] a d i h e = cc
  among_one P rows (c ∷ chosen) a d i h e = elim (Bool-cases (same_key a c)) [
    | inl t ↦ subst P (In-same_key c a rows d h.0.1 i t) h.0.0
    | inr t ↦ among_one P rows chosen a d i h.1 (rw t at e)
  ]

  -- A row with the key of a chosen row is that row.
  pub All-among :
      (P : A → Type 0) (rows chosen : List A)
      → DistinctKeys rows
      → All (λ c. P c × In c rows) chosen
      → All (λ a. among chosen a ≡ true → P a) rows
  All-among P rows chosen d h =
      All-map (λ a. In a rows) (λ a. among chosen a ≡ true → P a) rows
        (λ a i e. among_one P rows chosen a d i h e) (All-In rows)

  pub DistinctKeys-delete :
      (p : A → Bool) (xs : List A) → DistinctKeys xs → DistinctKeys (delete p xs)
  DistinctKeys-delete p [] d = tt
  DistinctKeys-delete p (x ∷ xs) d = elim (Bool-cases (p x)) [
    | inl e ↦ rw e (DistinctKeys-delete p xs d.1)
    | inr e ↦ rw e (All-delete (λ a. same_key a x ≡ false) p xs d.0, DistinctKeys-delete p xs d.1)
  ]

  module _ (p : A → Bool) (f : A → A) (keeps : (a : A) → key (f a) ≡ key a) where
    apart-update :
        (x : A) (xs : List A)
        → All (λ a. same_key a x ≡ false) xs
        → All (λ a. same_key a x ≡ false) (update p f xs)
    apart-update x [] h = tt
    apart-update x (y ∷ xs) h = elim (Bool-cases (p y)) [
      | inl e ↦ (rw (e, keeps y) h.0, apart-update x xs h.1)
      | inr e ↦ (rw e h.0, apart-update x xs h.1)
    ]

    rekey :
        (x : A) (xs : List A)
        → All (λ a. same_key a x ≡ false) xs
        → All (λ a. same_key a (if p x then f x else x) ≡ false) xs
    rekey x xs h = elim (Bool-cases (p x)) [ inl e ↦ rw (e, keeps x) h | inr e ↦ rw e h ]

    pub DistinctKeys-update : (xs : List A) → DistinctKeys xs → DistinctKeys (update p f xs)
    DistinctKeys-update [] d = tt
    DistinctKeys-update (x ∷ xs) d =
        (rekey x (update p f xs) (apart-update x xs d.0), DistinctKeys-update xs d.1)

  pub DistinctKeys-append :
      (a : A) (xs : List A)
      → any (same_key a) xs ≡ false
      → DistinctKeys xs
      → DistinctKeys (xs ++ a ∷ [])
  DistinctKeys-append a [] h d = (tt, tt)
  DistinctKeys-append a (x ∷ xs) h d = elim (Bool-cases (same_key a x)) [
    | inl e ↦ cc (rw e at h)
    | inr e ↦ (
      All-append (λ b. same_key b x ≡ false) xs (a ∷ []) d.0 (e, tt),
      DistinctKeys-append a xs (rw e at h) d.1,
    )
  ]
