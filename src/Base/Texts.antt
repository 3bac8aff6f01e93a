-- ===== src/Base/Texts.antt =====
-- Texts as the lists of their code points, and the character classes of the code's patterns.
use Prim.Native.Nat.{ℕ, zero, suc}
use Prim.Native.Char.{code}
use Prim.Native.String.{String}
use mathlib.Core.Bool.{Bool, true, false, ◌&&◌, ◌||◌}
use mathlib.Core.List.{List, [], ◌∷◌}
use workflow_runtime_core.Base.Tests.{leb, ◌==◌, if◌then◌else◌}

unfoldable pub codes : String → List ℕ
codes String.[] = []
codes (String.◌∷◌ c s) = code c ∷ codes s

unfoldable pub concat : String → String → String
concat String.[] t = t
concat (String.◌∷◌ c s) t = String.◌∷◌ c (concat s t)

abbrev pub is_lower : ℕ → Bool
is_lower c = leb b'a' c && leb c b'z'

abbrev pub is_digit : ℕ → Bool
is_digit c = leb b'0' c && leb c b'9'

-- What `$` of Python's `re` accepts: the end of the text, or a line feed that ends it.
abbrev pub at_end : List ℕ → Bool
at_end [] = true
at_end (c ∷ []) = c == 10
at_end (c ∷ d ∷ cs) = false

-- `[class]{0,n}$`, for a class without the line feed.
unfoldable pub at_most : (ℕ → Bool) → ℕ → List ℕ → Bool
at_most class zero cs = at_end cs
at_most class (suc n) [] = true
at_most class (suc n) (c ∷ cs) =
    let rest = at_most class n cs in if class c then rest else at_end (c ∷ cs)

-- str.isspace of one character
abbrev is_space : ℕ → Bool
is_space c =
    (leb 9 c && leb c 13)
    || (leb 28 c && leb c 32)
    || c == 133
    || c == 160
    || c == 5760
    || (leb 8192 c && leb c 8202)
    || c == 8232
    || c == 8233
    || c == 8239
    || c == 8287
    || c == 12288

all_space : List ℕ → Bool
all_space [] = true
all_space (c ∷ cs) = is_space c && all_space cs

-- not text.strip()
unfoldable pub is_blank : String → Bool
unfolding codes all_space
is_blank s = all_space (codes s)
