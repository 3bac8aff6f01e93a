-- ===== src/Json/Defs.antt =====
-- JSON documents, and `dict[str, Any]` as the list of an object's fields.
use workflow_runtime_core.Base.{
  ℕ, String, Bool, Option, none, some, ◌≡◌, refl, arith, eq_iff, str_eq, if◌then◌else◌,
}

-- A number is a natural number, `neg n` for -(n + 1), or the text of any other number.
mutual
  pub data Json : Type 0 where
    null : Json
    bool : Bool → Json
    num : ℕ → Json
    neg : ℕ → Json
    real : String → Json
    str : String → Json
    arr : Items → Json
    obj : Fields → Json

  pub data Items : Type 0 where
    nil : Items
    cons : Json → Items → Items

  pub data Fields : Type 0 where
    end : Fields
    field : String → Json → Fields → Fields

-- d.get(key)
unfoldable pub get : String → Fields → Option Json
get k end = none
get k (field j v d) = if str_eq j k then some v else get k d

-- d[key] = value
unfoldable pub put : String → Json → Fields → Fields
put k v end = field k v end
put k v (field j w d) = if str_eq j k then field k v d else field j w (put k v d)

-- d.pop(key, None)
unfoldable pub pop : String → Fields → Fields
pop k end = end
pop k (field j v d) = let rest = pop k d in if str_eq j k then rest else field j v rest

-- {**a, **b}, and jsonb's `a || b`.
unfoldable pub merge : Fields → Fields → Fields
merge a end = a
merge a (field k v d) = merge (put k v a) d

-- {k: v for k, v in d.items() if keep(k)}
unfoldable pub restrict : (String → Bool) → Fields → Fields
restrict keep end = end
restrict keep (field k v d) = let rest = restrict keep d in if keep k then field k v rest else rest

pub get-put :
    (k j : String) (v : Json) (d : Fields)
    → get j (put k v d) ≡ (if str_eq k j then some v else get j d)
unfolding get put
get-put k j v end = refl
get-put k j v (field i w d) = ground (arith, eq_iff k j, eq_iff i k, eq_iff i j, get-put k j v d)

pub get-pop : (k j : String) (d : Fields) → get j (pop k d) ≡ (if str_eq k j then none else get j d)
unfolding get pop
get-pop k j end = ground arith
get-pop k j (field i w d) = ground (arith, eq_iff k j, eq_iff i k, eq_iff i j, get-pop k j d)

pub get-restrict :
    (keep : String → Bool) (k : String) (d : Fields)
    → get k (restrict keep d) ≡ (if keep k then get k d else none)
unfolding get restrict
get-restrict keep k end = ground arith
get-restrict keep k (field i w d) = ground (arith, eq_iff i k, get-restrict keep k d)
