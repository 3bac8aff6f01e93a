-- ===== src/Base/Claims.antt =====
-- Two claims of rows, one after the other: UPDATE … FROM due WHERE key = due.key RETURNING.
use mathlib.Core.Path.{◌≡◌, refl, sym, ap, ◌∙◌}
use mathlib.Core.Logic.{inl, inr}
use mathlib.Core.Bool.{Bool, true, false}
use mathlib.Core.List.{List, [], ◌∷◌, map}
use Prim.Native.String.{String}
use workflow_runtime_core.Base.Tests.{Bool-cases, str_eq, str_eq→eq}
use workflow_runtime_core.Base.Lists.{All-image, All, All-map}
use workflow_runtime_core.Base.Tables.{select, update, any}
use workflow_runtime_core.Base.Keys.{
  In, DistinctKeys, DistinctKeys-update, All-among, among, same_key,
}

All-selected :
    {A : Type 0} (P : A → Type 0) (p : A → Bool) (xs : List A)
    → All (λ a. p a ≡ true → P a) xs
    → All P (select p xs)
All-selected P p [] h = tt
All-selected P p (x ∷ xs) h = elim (Bool-cases (p x)) [
  | inl e ↦ rw e (h.0 e, All-selected P p xs h.1)
  | inr e ↦ rw e (All-selected P p xs h.1)
]

trivially : {A : Type 0} (P : A → Type 0) (xs : List A) → ((a : A) → P a) → All P xs
trivially P [] k = tt
trivially P (x ∷ xs) k = (k x, trivially P xs k)

module _ {A : Type 0} (key : A → String) where
  -- A row with none of the keys of `chosen` has none of the keys of rows that do.
  among-apart :
      (chosen first : List A) (n : A)
      → All (λ m. among key chosen m ≡ true) first
      → among key chosen n ≡ false
      → among key first n ≡ false
  among-apart chosen [] n h e = refl
  among-apart chosen (m ∷ first) n h e = elim (Bool-cases (same_key key n m)) [
    | inl t ↦
        let same = str_eq→eq (key m) (key n) t in
        let both : among key chosen m ≡ among key chosen n =
          ap (λ k. any (λ x. str_eq (key x) k) chosen) same in
        absurd (clash (sym h.0 ∙ both ∙ e))
    | inr t ↦ rw t (among-apart chosen first n h.1 e)
  ]
    where
      clash : true ≡ false → ⊥
      clash p = cc p

  module _ (f g : A → A) (f_keeps : (a : A) → key (f a) ≡ key a)
      (g_keeps : (a : A) → key (g a) ≡ key a) where
    claimed-among :
        (chosen rows : List A)
        → All (λ m. among key chosen m ≡ true) (map f (select (among key chosen) rows))
    claimed-among chosen rows =
        All-image (λ m. among key chosen m ≡ true) f _
          (All-selected (λ m. among key chosen (f m) ≡ true) (among key chosen) rows
            (trivially _ rows
              (λ m e. ap (λ k. any (λ x. str_eq (key x) k) chosen) (f_keeps m) ∙ e)))

    -- Where a claimed row is no longer due, a second claim of due rows gets none of the first's.
    pub claims-apart :
        (due : A → Bool) (rows chosen chosen' : List A)
        → DistinctKeys key rows
        → ((a : A) → due (f a) ≡ false)
        → All (λ c. (due c ≡ true) × In c (update (among key chosen) f rows)) chosen'
        → All
            (λ n. among key (map f (select (among key chosen) rows)) n ≡ false)
            (map g (select (among key chosen') (update (among key chosen) f rows)))
    claims-apart due rows chosen chosen' distinct spent h = All-image _ g _ (
        All-selected _ (among key chosen') _ (
          All-map
            (λ n.
              (among key chosen' n ≡ true → due n ≡ true)
              × (among key chosen n ≡ true → due n ≡ false))
            _ _
            (λ n k e. among-apart chosen _ (g n) (claimed-among chosen rows) (
              ap (λ j. any (λ x. str_eq (key x) j) chosen) (g_keeps n)
              ∙ fresh (among key chosen n) (due n) (k.0 e) k.1))
            (both _ _ _
              (All-among key (λ c. due c ≡ true) _ chosen'
                (DistinctKeys-update key (among key chosen) f f_keeps rows distinct) h)
              (spent_rows rows))))
      where
        fresh : (a d : Bool) → d ≡ true → (a ≡ true → d ≡ false) → a ≡ false
        fresh false d e k = refl
        fresh true d e k = let t = k refl in cc (t, e)

        both : (P Q : A → Type 0) (xs : List A) → All P xs → All Q xs → All (λ a. P a × Q a) xs
        both P Q [] p q = tt
        both P Q (x ∷ xs) p q = ((p.0, q.0), both P Q xs p.1 q.1)

        spent_rows :
            (xs : List A)
            → All (λ n. among key chosen n ≡ true → due n ≡ false) (update (among key chosen) f xs)
        spent_rows [] = tt
        spent_rows (x ∷ xs) = elim (Bool-cases (among key chosen x)) [
          | inl e ↦ (rw e (λ t. spent x), spent_rows xs)
          | inr e ↦ (rw e (λ t. cc (t, e)), spent_rows xs)
        ]
