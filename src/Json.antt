-- ===== src/Json.antt =====
-- `serde_json::Value` and its object maps, with what the code does to them: insertion, lookup and
-- the test for emptiness. An `f64` is its 64-bit pattern.
use steda.Prelude.{
  ℕ, ◌≡◌, refl, Bool, true, false, Option, none, some, ◌||◌, if◌then◌else◌, arith, ◌==◌, ◌%◌, ◌/◌,
  ◌^◌, not, leb,
}
use steda.Text.{Str, str_eq}
use steda.Text.Equality.{eq_of_str_eq, str_eq_refl}

-- The bit pattern of a binary64 number.
abbrev pub F64 : Type 0
F64 = ℕ

-- `f64::is_finite`: the exponent field is not all ones.
unfoldable pub is_finite : F64 → Bool
is_finite x = not (x / 2 ^ 52 % 2 ^ 11 == 2047)

-- `x <= 0.0` for a finite `x`: either zero, or the sign bit set.
unfoldable pub is_nonpositive : F64 → Bool
is_nonpositive x = x == 0 || leb (2 ^ 63) x

pub data Number : Type 0 where
  pos_int neg_int : ℕ → Number
  float : F64 → Number

mutual
  pub data Json : Type 0 where
    null : Json
    boolean : Bool → Json
    number : Number → Json
    string : Str → Json
    array : Items → Json
    object : JsonObject → Json

  pub data Items : Type 0 where
    nil : Items
    cons : Json → Items → Items

  pub data JsonObject : Type 0 where
    empty : JsonObject
    entry : Str → Json → JsonObject → JsonObject

-- `Map::insert`: a key that is there gets the new value.
unfoldable pub insert : Str → Json → JsonObject → JsonObject
insert k v empty = entry k v empty
insert k v (entry j w m) = if str_eq k j then entry j v m else entry j w (insert k v m)

-- `Map::get`.
unfoldable pub get : Str → JsonObject → Option Json
get k empty = none
get k (entry j w m) = if str_eq k j then some w else get k m

-- `Map::is_empty`.
abbrev pub has_no_entry : JsonObject → Bool
has_no_entry empty = true
has_no_entry (entry _ _ _) = false

-- What was inserted is found, and the other keys are left alone.
pub get-insert :
    (j k : Str) (v : Json) (m : JsonObject)
    → get j (insert k v m) ≡ (if str_eq j k then some v else get j m)
unfolding get insert
get-insert j k v empty = refl
get-insert j k v (entry i w m) = ground (
  arith,
  eq_of_str_eq k i,
  eq_of_str_eq j i,
  eq_of_str_eq j k,
  str_eq_refl k,
  str_eq_refl j,
  get-insert j k v m,
)
