-- ===== src/Exec/Keeps.antt =====
-- What a block of statements keeps, whether it returns or raises.
use workflow_runtime_core.Base.{◌≡◌, refl}
use workflow_runtime_core.Exec.Defs.{Result, ok, err, Exec, continue, ◌>>=◌}

after-keeps :
    {S A B : Type 0} (P : S → Type 0) (r : Result A) (f : A → Exec S B) (s : S)
    → P s
    → ((a : A) → r ≡ ok a → P (f a s).1)
    → P (continue r f s).1
after-keeps P (ok a) f s h k = k a refl
after-keeps P (err e) f s h k = h

-- A block from the state `s`: what its first part keeps, and then the rest of it.
pub bind-keeps :
    {S A B : Type 0} (P : S → Type 0) (m : Exec S A) (f : A → Exec S B) (s : S)
    → P (m s).1
    → ((a : A) → (m s).0 ≡ ok a → P (f a (m s).1).1)
    → P ((m >>= f) s).1
unfolding ◌>>=◌
bind-keeps P m f s h k = after-keeps P (m s).0 f (m s).1 h k
