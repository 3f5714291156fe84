-- ===== src/Json.antt =====
-- The JSON values that the backend client sends and reads (nlohmann::json), and what it takes from
-- that library as it is: reading numbers, printing and parsing.
use fuelflux.Base.{ℤ, Bool, true, false, if◌then◌else◌, Option, none, some, Text, text_eq}
use fuelflux.Types.{Volume}

-- An object is the list of its members, with different keys.
mutual
  pub data Json : Type 0 where
    null : Json
    boolean : Bool → Json
    integer : ℤ → Json
    float : Volume → Json
    string : Text → Json
    array : Items → Json
    object : Members → Json

  pub data Items : Type 0 where
    nil : Items
    cons : Json → Items → Items

  pub data Members : Type 0 where
    end : Members
    member : Text → Json → Members → Members

-- What an accessor gives: a value, an early return with an error text, or an exception.
pub data Attempt {ℓ} (A : Type ℓ) : Type ℓ where
  ok : A → Attempt A
  fail : Text → Attempt A
  throws : Attempt A

infixl 5 ◌>>=◌ ◌>>◌
abbrev pub ◌>>=◌ {ℓ κ} : {A : Type ℓ} {B : Type κ} → Attempt A → (A → Attempt B) → Attempt B
ok a >>= f = f a
fail e >>= f = fail e
throws >>= f = throws

abbrev pub ◌>>◌ {ℓ} : {B : Type ℓ} → Attempt (Unit {0}) → Attempt B → Attempt B
m >> k = m >>= λ _. k

abbrev pub guard : Bool → Text → Attempt (Unit {0})
guard true e = ok tt
guard false e = fail e

abbrev pub attempt {ℓ} : {A : Type ℓ} → Option A → Attempt A
attempt none = throws
attempt (some a) = ok a

-- get<int>(), get<double>(), dump() and parse(); `none` is an exception. `read_double` is std::stod
-- on a text of any form.
pub record JsonLib : Type 0 where
  pub get_int : Json → Option ℤ
  pub get_double : Json → Option Volume
  pub dump : Json → Option Text
  pub parse : Text → Option Json
  pub read_double : Text → Option Volume

abbrev pub is_object : Json → Bool
is_object (object ms) = true
is_object j = false

abbrev pub is_array : Json → Bool
is_array (array js) = true
is_array j = false

abbrev pub is_null : Json → Bool
is_null null = true
is_null j = false

abbrev pub is_string : Json → Bool
is_string (string t) = true
is_string j = false

abbrev pub is_number_integer : Json → Bool
is_number_integer (integer n) = true
is_number_integer j = false

abbrev pub is_number : Json → Bool
is_number (integer n) = true
is_number (float v) = true
is_number j = false

abbrev pub lookup_member : Text → Members → Option Json
lookup_member k end = none
lookup_member k (member l j ms) = if text_eq l k then some j else lookup_member k ms

-- contains and operator[]: the member of an object.
abbrev pub find_member : Text → Json → Option Json
find_member k (object ms) = lookup_member k ms
find_member k j = none

abbrev pub set_in : Text → Json → Members → Members
set_in k v end = member k v end
set_in k v (member l j ms) = if text_eq l k then member l v ms else member l j (set_in k v ms)

-- j[k] = v, for an object
abbrev pub set_member : Text → Json → Json → Json
set_member k v (object ms) = object (set_in k v ms)
set_member k v j = j

-- get<std::string>()
abbrev pub get_string : Json → Attempt Text
get_string (string t) = ok t
get_string j = throws

module _ (lib : JsonLib) where
  -- value(k, d) for an int and for a text: an exception where j is no object.
  abbrev pub value_int : Json → Text → ℤ → Attempt ℤ
  value_int (object ms) k d = elim (lookup_member k ms) [
    | none ↦ ok d
    | some v ↦ attempt (lib.get_int v)
  ]
  value_int j k d = throws

abbrev pub value_text : Json → Text → Text → Attempt Text
value_text (object ms) k d = elim (lookup_member k ms) [ none ↦ ok d | some v ↦ get_string v ]
value_text j k d = throws
