-- ===== src/Value.antt =====
-- Python values as the backend's dicts hold them: what JSON has, with `int` apart from `float`.
-- A finite float is a dyadic number, `finite m k` for m / 2 ^ k. Keys of a dict are texts.
pub mod Assign
use lynx_monitor.Prelude.{
  ℕ, zero, String, Text, Bool, true, false, Option, none, some, [], if◌then◌else◌, ◌==◌, string_eq,
  Result, ok, fail, key_error, codes,
}

pub data ℤ : Type 0 where
  pos : ℕ → ℤ
  negsuc : ℕ → ℤ  -- `negsuc n` is -(n + 1)

pub data Float : Type 0 where
  nan : Float
  infinite : (negative : Bool) → Float
  finite : ℤ → ℕ → Float

mutual
  pub data Value : Type 0 where
    null : Value
    bool : Bool → Value
    int : ℤ → Value
    float : Float → Value
    str : Text → Value
    list : Items → Value
    dict : Fields → Value

  pub data Items : Type 0 where
    nil : Items
    cons : Value → Items → Items

  pub data Fields : Type 0 where
    end : Fields
    field : String → Value → Fields → Fields

-- d.get(k)
unfoldable pub find : String → Fields → Option Value
find k end = none
find k (field j v fs) = if j == k then some v else find k fs

-- k in d
abbrev pub has : Fields → String → Bool
has fs k = elim (find k fs) [ none ↦ false | some _ ↦ true ]

-- d[k]
abbrev pub item : Fields → String → Result Value
item fs k = elim (find k fs) [ none ↦ fail key_error (codes k) | some v ↦ ok v ]

-- d[k] = v
unfoldable pub assign : String → Value → Fields → Fields
assign k v end = field k v end
assign k v (field j w fs) =
    let rest = assign k v fs in if j == k then field j v fs else field j w rest

abbrev pub is_dict : Value → Bool
is_dict (dict _) = true
is_dict _ = false

abbrev pub is_list : Value → Bool
is_list (list _) = true
is_list _ = false

-- The fields of a value that is known to be a dict, the items of one that is known to be a list.
abbrev pub fields_of : Value → Fields
fields_of (dict fs) = fs
fields_of _ = end

abbrev pub items_of : Value → Items
items_of (list xs) = xs
items_of _ = nil

-- bool(v)
unfoldable pub truthy : Value → Bool
truthy null = false
truthy (bool b) = b
truthy (int (pos zero)) = false
truthy (int _) = true
truthy (float (finite (pos zero) _)) = false
truthy (float _) = true
truthy (str []) = false
truthy (str _) = true
truthy (list nil) = false
truthy (list _) = true
truthy (dict end) = false
truthy (dict _) = true

-- d.get(k), with None for an absent key
abbrev pub get_value : Fields → String → Value
get_value fs k = elim (find k fs) [ none ↦ null | some v ↦ v ]
