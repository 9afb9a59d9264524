-- ===== src/Json.antt =====
-- The JavaScript values that the routes read and write: parsed JSON, property access, truthiness and
-- `typeof` as the source uses them. `undefined` is the `none` of an `Option Json`.
pub mod Codec
use x402_token_market.Base.{
  ℕ, zero, suc, ◌/◌, ◌≡◌, refl, Bool, true, false, not, ◌&&◌, String, Option, none, some, List, [],
  ◌∷◌, str_eq, ◌==◌, ltb, if◌then◌else◌,
}

-- A finite number: `top` over `suc under`, below zero if `negative`.
pub record Number : Type 0 where
  pub negative : Bool
  pub top : ℕ
  pub under : ℕ

mutual
  pub data Json : Type 0 where
    null : Json
    bool : Bool → Json
    num : Number → Json
    str : String → Json
    arr : Items → Json
    obj : Fields → Json

  pub data Items : Type 0 where
    nil : Items
    cons : Json → Items → Items

  pub data Fields : Type 0 where
    end : Fields
    field : String → Json → Fields → Fields

-- A whole number, and a decimal fraction `top / 10^4`.
abbrev pub whole : ℕ → Json
whole n = num (record { negative = false; top = n; under = 0 })

abbrev pub tenthousandths : ℕ → Json
tenthousandths n = num (record { negative = false; top = n; under = 9999 })

abbrev pub elems : Items → List Json
elems nil = []
elems (cons v vs) = v ∷ elems vs

abbrev pub items : List Json → Items
items [] = nil
items (v ∷ vs) = cons v (items vs)

abbrev pub fields : List (String × Json) → Fields
fields [] = end
fields ((k, v) ∷ r) = field k v (fields r)

-- An object literal; a property whose value is `undefined` is left out, as `JSON.stringify` does.
abbrev pub object : List (String × Json) → Json
object l = obj (fields l)

-- The own property `k` of an object. The parser keeps one value for each key.
abbrev pub lookup : String → Fields → Option Json
lookup k end = none
lookup k (field j v r) = if str_eq j k then some v else lookup k r

-- `o[k] = v`
abbrev pub assign : String → Json → Fields → Fields
assign k v end = field k v end
assign k v (field j w r) = if str_eq j k then field j v r else field j w (assign k v r)

-- `v.k` of a value that is not null; the keys used here are no properties of other values.
abbrev pub get : String → Json → Option Json
get k (obj r) = lookup k r
get k _ = none

-- `v?.k`, or `v.k` behind a test that `v` is there.
abbrev pub get? : String → Option Json → Option Json
get? k none = none
get? k (some v) = get k v

abbrev pub truthy : Json → Bool
truthy null = false
truthy (bool b) = b
truthy (num n) = ltb 0 n.top
truthy (str s) = not (str_eq s "")
truthy (arr _) = true
truthy (obj _) = true

abbrev pub is_truthy : Option Json → Bool
is_truthy none = false
is_truthy (some v) = truthy v

-- `typeof v === "string" ? v : undefined`
abbrev pub as_string : Option Json → Option String
as_string (some (str s)) = some s
as_string _ = none

-- `typeof v === "object"`, true of null and of arrays too.
abbrev pub is_object : Json → Bool
is_object null = true
is_object (arr _) = true
is_object (obj _) = true
is_object _ = false

-- `v ?? d`, which passes over undefined and null.
abbrev pub coalesce : Option Json → Json → Json
coalesce none d = d
coalesce (some null) d = d
coalesce (some v) d = v

-- `v.length === 0`
abbrev pub is_empty : Json → Bool
is_empty (str s) = str_eq s ""
is_empty (arr nil) = true
is_empty (obj r) = elim (lookup "length" r) [
  | some v ↦ (elim v [ num n ↦ n.top == 0 | _ ↦ false ])
  | none ↦ false
]
is_empty _ = false

-- `v[0]`
abbrev pub first : Json → Option Json
first (arr (cons v _)) = some v
first (str (String.◌∷◌ c _)) = some (str (String.◌∷◌ c ""))
first (obj r) = lookup "0" r
first _ = none
