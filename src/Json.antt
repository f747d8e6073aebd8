-- ===== src/Json.antt =====
-- JSON values as the code sees them through `serde_json::Value`: a number is an unsigned integer, a
-- negative integer or a float. `F` stands for the floats.
use integration_home_assista.Prelude.{
  ℕ, String, Bool, true, false, Option, none, some, ◌≡◌, refl, if◌then◌else◌, str_eq, eq_iff, arith,
}

mutual
  pub data Value (F : Type 0) : Type 0 where
    null : Value F
    bool : Bool → Value F
    uint : ℕ → Value F
    negative : ℕ → Value F
    float : F → Value F
    str : String → Value F
    arr : Items F → Value F
    obj : Fields F → Value F

  pub data Items (F : Type 0) : Type 0 where
    nil : Items F
    cons : Value F → Items F → Items F

  pub data Fields (F : Type 0) : Type 0 where
    end : Fields F
    field : String → Value F → Fields F → Fields F

module _ {F : Type 0} where
  -- `Map::get`
  unfoldable pub get : String → Fields F → Option (Value F)
  get k end = none
  get k (field j v fs) = if str_eq j k then some v else get k fs

  -- `Map::insert`
  unfoldable pub put : String → Value F → Fields F → Fields F
  put k v end = field k v end
  put k v (field j u fs) = if str_eq j k then field k v fs else field j u (put k v fs)

  -- `Map::remove`
  unfoldable pub remove : String → Fields F → Fields F
  remove k end = end
  remove k (field j v fs) = if str_eq j k then fs else field j v (remove k fs)

  abbrev pub as_str : Value F → Option String
  as_str (str s) = some s
  as_str _ = none

  abbrev pub as_u64 : Value F → Option ℕ
  as_u64 (uint n) = some n
  as_u64 _ = none

  abbrev pub as_bool : Value F → Option Bool
  as_bool (bool b) = some b
  as_bool _ = none

  abbrev pub as_object : Value F → Option (Fields F)
  as_object (obj fs) = some fs
  as_object _ = none

  abbrev pub as_array : Value F → Option (Items F)
  as_array (arr xs) = some xs
  as_array _ = none

  -- `.get(key).and_then(f)`
  abbrev pub get_then : {A : Type 0} → (Value F → Option A) → String → Fields F → Option A
  get_then f k fs = elim (get k fs) [ none ↦ none | some v ↦ f v ]

  pub get-put :
      (k j : String) (v : Value F) (fs : Fields F)
      → get j (put k v fs) ≡ (if str_eq k j then some v else get j fs)
  unfolding get put
  get-put k j v end = refl
  get-put k j v (field i u fs) =
      ground (arith, eq_iff k j, eq_iff i k, eq_iff i j, get-put k j v fs)

module _ {F : Type 0} where
  -- `move_value` of src/util/json.rs, on the source and the destination.
  unfoldable pub move_value : String → String → Fields F × Fields F → Fields F × Fields F
  unfolding get put remove
  move_value key dest_key (source, dest) = elim (get key source) [
    | none ↦ (source, dest)
    | some v ↦ (remove key source, put dest_key v dest)
  ]

  -- `move_entry`
  unfoldable pub move_entry : String → Fields F × Fields F → Fields F × Fields F
  unfolding move_value
  move_entry key = move_value key key

  abbrev pub is_number : Value F → Bool
  is_number (uint n) = true
  is_number (negative n) = true
  is_number (float x) = true
  is_number _ = false

  -- `number_value`; a number of any kind has an `as_f64`, so `is_float_value` asks the same.
  unfoldable pub number_value : Fields F → String → Option (Value F)
  unfolding get
  number_value fields key = elim (get key fields) [
    | none ↦ none
    | some v ↦ if is_number v then some v else none
  ]

  unfoldable pub is_float_value : Fields F → String → Bool
  unfolding get
  is_float_value fields key = elim (get key fields) [ none ↦ false | some v ↦ is_number v ]
