-- ===== src/Json/Equality.antt =====
-- Python's `==` on JSON values: dicts compare without regard to the order of their keys.
use workflow_runtime_core.Base.{ℕ, Bool, true, false, ◌&&◌, none, some, ◌==◌, str_eq, suc}
use workflow_runtime_core.Json.Defs.{
  Json, null, bool, num, neg, real, str, arr, obj, Items, nil, cons, Fields, end, field, get,
}

size : Fields → ℕ
size end = 0
size (field k v d) = suc (size d)

bool_eq : Bool → Bool → Bool
bool_eq true b = b
bool_eq false true = false
bool_eq false false = true

-- `True == 1` and `False == 0`.
bool_num : Bool → ℕ → Bool
bool_num true n = n == 1
bool_num false n = n == 0

unfoldable mutual
  unfolding size bool_eq bool_num

  pub same : Json → Json → Bool
  same null null = true
  same (bool a) (bool b) = bool_eq a b
  same (bool a) (num n) = bool_num a n
  same (num n) (bool a) = bool_num a n
  same (num m) (num n) = m == n
  same (neg m) (neg n) = m == n
  same (real a) (real b) = str_eq a b
  same (str a) (str b) = str_eq a b
  same (arr xs) (arr ys) = same_items xs ys
  same (obj d) (obj e) = (size d == size e) && covered d e
  same _ _ = false

  pub same_items : Items → Items → Bool
  same_items nil nil = true
  same_items (cons x xs) (cons y ys) = same x y && same_items xs ys
  same_items _ _ = false

  -- Every field of the first dict has an equal value in the second.
  pub covered : Fields → Fields → Bool
  covered end e = true
  covered (field k v d) e = elim (get k e) [ none ↦ false | some w ↦ same v w ] && covered d e
