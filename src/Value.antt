-- ===== src/Value.antt =====
-- The values that `json.loads` makes, and Python's operations on them that
-- benchmarks/serving_common.py uses. A dict is its entries, in order; `json` and the code build it
-- with distinct keys. A float is its IEEE 754 bit pattern; what CPython computes with floats is the
-- interface `Floats`.
pub mod Checks
use llm_inference_optimizati.Base.{
  ℕ, ◌==◌, String, Bool, true, false, ◌&&◌, Option, none, some, List, [], ◌∷◌, ℤ, pos, eqb_ℤ,
  Result, ok, err, Error, contains, all, length, str_eq, if◌then◌else◌,
}

mutual
  pub data Value : Type 0 where
    null : Value
    bool : Bool → Value
    int : ℤ → Value
    float : ℕ → Value
    str : String → Value
    arr : Items → Value
    obj : Fields → Value

  pub data Fields : Type 0 where
    end : Fields
    field : String → Value → Fields → Fields

  pub data Items : Type 0 where
    nil : Items
    cons : Value → Items → Items

abbrev pub items : Items → List Value
items nil = []
items (cons v vs) = v ∷ items vs

abbrev pub array : List Value → Items
array [] = nil
array (v ∷ vs) = cons v (array vs)

abbrev pub keys : Fields → List String
keys end = []
keys (field k v d) = k ∷ keys d

abbrev pub values : Fields → List Value
values end = []
values (field k v d) = v ∷ values d

unfoldable pub lookup : String → Fields → Option Value
lookup k end = none
lookup k (field j v d) = if str_eq j k then some v else lookup k d

abbrev or_null : Option Value → Value
or_null none = null
or_null (some v) = v

-- `d.get(k)`
unfoldable pub get : Fields → String → Value
unfolding lookup
get d k = or_null (lookup k d)

abbrev or_key_error : String → Option Value → Result Value
or_key_error k none = err (Error.key_error k)
or_key_error k (some v) = ok v

-- `d[k]`
unfoldable pub get_item : Fields → String → Result Value
unfolding lookup
get_item d k = or_key_error k (lookup k d)

-- `k in d`
abbrev pub has : Fields → String → Bool
has d k = contains (keys d) k

-- `set(xs) <= set(ys)`
abbrev pub subset : List String → List String → Bool
subset xs ys = all (contains ys) xs

-- `set(d) == {…}`
unfoldable pub has_exactly : Fields → List String → Bool
has_exactly d names = subset (keys d) names && subset names (keys d)

abbrev pub is_str : Value → String → Bool
is_str (str s) t = str_eq s t
is_str _ t = false

-- `v in {…}` for a set of texts: an unhashable `v` raises TypeError
abbrev pub in_set : Value → List String → Result Bool
in_set (str s) names = ok (contains names s)
in_set (arr _) names = err Error.type_error
in_set (obj _) names = err Error.type_error
in_set _ names = ok false

abbrev pub is_obj : Value → Bool
is_obj (obj _) = true
is_obj _ = false

abbrev pub is_null : Value → Bool
is_null null = true
is_null _ = false

-- What the program uses of CPython's floats.
pub record Floats : Type 0 where
  -- `a / b` on integers
  pub div : ℤ → ℤ → ℕ
  pub float_eq : ℕ → ℕ → Bool
  -- `a == x` and `a < x` for an integer and a float, `x < y`
  pub int_eq_float : ℤ → ℕ → Bool
  pub int_lt_float : ℤ → ℕ → Bool
  pub float_lt_int : ℕ → ℤ → Bool
  pub float_lt : ℕ → ℕ → Bool
  -- `math.isfinite`
  pub is_finite : ℕ → Bool

-- a key that the other dict lacks makes the dicts differ
abbrev pub found_eq : (Value → Bool) → Option Value → Bool
found_eq eq none = false
found_eq eq (some v) = eq v

abbrev bool_int : Bool → ℤ
bool_int true = pos 1
bool_int false = pos 0

module _ (fl : Floats) where
  -- `a == b` on numbers; a `bool` is the integer 0 or 1
  abbrev pub num_eq : Value → Value → Bool
  num_eq (bool a) (bool b) = eqb_ℤ (bool_int a) (bool_int b)
  num_eq (bool a) (int b) = eqb_ℤ (bool_int a) b
  num_eq (int a) (bool b) = eqb_ℤ a (bool_int b)
  num_eq (int a) (int b) = eqb_ℤ a b
  num_eq (bool a) (float b) = fl.int_eq_float (bool_int a) b
  num_eq (int a) (float b) = fl.int_eq_float a b
  num_eq (float a) (bool b) = fl.int_eq_float (bool_int b) a
  num_eq (float a) (int b) = fl.int_eq_float b a
  num_eq (float a) (float b) = fl.float_eq a b
  num_eq _ _ = false

  -- Python's `==`: arrays by elements, dicts without regard to order
  unfoldable mutual
    pub py_eq : Value → Value → Bool
    py_eq null null = true
    py_eq (str s) (str t) = str_eq s t
    py_eq (arr xs) (arr ys) = items_eq xs (items ys)
    py_eq (obj d) (obj e) = length (keys d) == length (keys e) && fields_eq d e
    py_eq v w = num_eq v w

    pub items_eq : Items → List Value → Bool
    items_eq nil [] = true
    items_eq (cons v vs) (w ∷ ws) = py_eq v w && items_eq vs ws
    items_eq _ _ = false

    pub fields_eq : Fields → Fields → Bool
    fields_eq end e = true
    fields_eq (field k v d) e = found_eq (py_eq v) (lookup k e) && fields_eq d e

-- `d.get(k, default)`
unfoldable pub get_or : Fields → String → Value → Value
unfolding lookup
get_or d k default = elim (lookup k d) [ none ↦ default | some v ↦ v ]

-- `d[k] = v`: an existing key keeps its place, a new one goes to the end
unfoldable pub set_item : Fields → String → Value → Fields
set_item end k v = field k v end
set_item (field j w d) k v = if str_eq j k then field j v d else field j w (set_item d k v)

abbrev pub is_bool : Value → Bool
is_bool (bool b) = true
is_bool _ = false
