-- ===== src/Exec/Inversion.antt =====
-- What a block that returned went through.
use workflow_runtime_core.Base.{◌≡◌, refl, Bool, true, false}
use workflow_runtime_core.Exec.Defs.{Error, Result, ok, err, Exec, continue, raise_if, ◌>>=◌}

continue-ok :
    {S A B : Type 0} (r : Result A) (f : A → Exec S B) (s s' : S) (b : B)
    → continue r f s ≡ (ok b, s')
    → (a : A) × (r ≡ ok a) × (f a s ≡ (ok b, s'))
continue-ok (ok a) f s s' b h = (a, refl, h)
continue-ok (err e) f s s' b h = cc h

pub bind-ok :
    {S A B : Type 0} (m : Exec S A) (f : A → Exec S B) (s s' : S) (b : B)
    → (m >>= f) s ≡ (ok b, s')
    → (a : A) × ((m s).0 ≡ ok a) × (f a (m s).1 ≡ (ok b, s'))
unfolding ◌>>=◌
bind-ok m f s s' b h = continue-ok (m s).0 f (m s).1 s' b h

-- The same, with the state between the two parts.
pub bind-split :
    {S A B : Type 0} (m : Exec S A) (f : A → Exec S B) (s s' : S) (b : B)
    → (m >>= f) s ≡ (ok b, s')
    → (a : A) × (t : S) × (m s ≡ (ok a, t)) × (f a t ≡ (ok b, s'))
bind-split m f s s' b h =
    let (a, first, rest) = bind-ok m f s s' b h in (a, (m s).1, (λ i. (first i, (m s).1)), rest)

pub ok-injective : {A : Type 0} {a b : A} → ok a ≡ ok b → a ≡ b
ok-injective h = cc h

-- A block that keeps `I` up to its last part, whatever its first part raises.
pub bind-post :
    {S A B : Type 0} (I : S → Type 0) (Q : Result B × S → Type 0) (m : Exec S A) (f : A → Exec S B)
    (s : S)
    → I (m s).1
    → ((e : Error) (s' : S) → I s' → Q (err e, s'))
    → ((a : A) → (m s).0 ≡ ok a → Q (f a (m s).1))
    → Q ((m >>= f) s)
unfolding ◌>>=◌
bind-post I Q m f s kept failed rest = go (m s).0 refl
  where
    go : (r : Result _) → (m s).0 ≡ r → Q (continue r f (m s).1)
    go (ok a) e = rest a e
    go (err x) e = failed x (m s).1 kept

-- A block that succeeds has passed its guard.
pub past_guard :
    {S A : Type 0} (b : Bool) (e : Error) (f : Unit → Exec S A) (s s' : S) (a : A)
    → (raise_if b e >>= f) s ≡ (ok a, s')
    → (b ≡ false) × (f tt s ≡ (ok a, s'))
unfolding ◌>>=◌
past_guard true e f s s' a h = cc h
past_guard false e f s s' a h = (refl, h)
