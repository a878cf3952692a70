-- ===== src/Value/Text.antt =====
-- Texts of values: Python's `str(v)` and `repr(v)`, and `json.dumps`. Of the characters that need an
-- escape the quote, the backslash and the line breaks are written out; the texts are ASCII.
use ops_pilot_ai.Prelude.{
  ℕ, suc, ◌≡◌, refl, true, false, not, ◌&&◌, ◌||◌, if◌then◌else◌, ◌==◌, ℕ_eq, String_eq,
}
use Prim.Native.Char.{code}
use Prim.Native.String.{String, ◌++◌, compare}
use Prim.Native.Nat.{Ordering}
use ops_pilot_ai.Prelude.Text.{show_ℕ, contains}
use ops_pilot_ai.Value.{
  ℤ, pos, negsuc, Value, null, bool, num, str, arr, obj, Items, nil, cons, Fields, end, field,
}

unfoldable pub show_ℤ : ℤ → String
unfolding show_ℕ
show_ℤ (pos n) = show_ℕ n
show_ℤ (negsuc n) = "-" ++ show_ℕ (suc n)

-- The escapes inside a text that is quoted by the character `q`.
unfoldable pub escape : ℕ → String → String
escape q String.[] = ""
escape q (String.◌∷◌ c s) =
    (if code c == q || code c == 92
      then "\\" ++ String.◌∷◌ c ""
      else if code c == 10
      then "\\n"
      else if code c == 13
      then "\\r"
      else if code c == 9
      then "\\t"
      else String.◌∷◌ c "")
    ++ escape q s

-- `repr(s)`: single quotes, unless the text holds one and no double quote
unfoldable pub repr_text : String → String
unfolding escape contains
repr_text s =
    if contains "'" s && not (contains "\"" s)
    then "\"" ++ escape 34 s ++ "\""
    else "'" ++ escape 39 s ++ "'"

unfoldable mutual
  unfolding repr_text show_ℤ

  pub repr : Value → String
  repr null = "None"
  repr (bool true) = "True"
  repr (bool false) = "False"
  repr (num n) = show_ℤ n
  repr (str s) = repr_text s
  repr (arr xs) = "[" ++ repr_items xs ++ "]"
  repr (obj d) = "{" ++ repr_fields d ++ "}"

  pub repr_items : Items → String
  repr_items nil = ""
  repr_items (cons v nil) = repr v
  repr_items (cons v (cons w xs)) = repr v ++ ", " ++ repr_items (cons w xs)

  pub repr_fields : Fields → String
  repr_fields end = ""
  repr_fields (field k v end) = repr_text k ++ ": " ++ repr v
  repr_fields (field k v (field j w d)) =
      repr_text k ++ ": " ++ repr v ++ ", " ++ repr_fields (field j w d)

-- `'"' + escaped + '"'` of the JSON encoder
unfoldable pub json_text : String → String
unfolding escape
json_text s = "\"" ++ escape 34 s ++ "\""

unfoldable mutual
  unfolding json_text show_ℤ

  pub json : Value → String
  json null = "null"
  json (bool true) = "true"
  json (bool false) = "false"
  json (num n) = show_ℤ n
  json (str s) = json_text s
  json (arr xs) = "[" ++ json_items xs ++ "]"
  json (obj d) = "{" ++ json_fields d ++ "}"

  pub json_items : Items → String
  json_items nil = ""
  json_items (cons v nil) = json v
  json_items (cons v (cons w xs)) = json v ++ ", " ++ json_items (cons w xs)

  pub json_fields : Fields → String
  json_fields end = ""
  json_fields (field k v end) = json_text k ++ ": " ++ json v
  json_fields (field k v (field j w d)) =
      json_text k ++ ": " ++ json v ++ ", " ++ json_fields (field j w d)

-- Inserts a key into a dictionary that is sorted by key.
unfoldable pub insert_sorted : String → Value → Fields → Fields
insert_sorted k v end = field k v end
insert_sorted k v (field j w d) = elim (compare k j) [
  | Ordering.lt ↦ field k v (field j w d)
  | _ ↦ field j w (insert_sorted k v d)
]

unfoldable mutual
  unfolding insert_sorted

  pub sort_keys : Value → Value
  sort_keys null = null
  sort_keys (bool b) = bool b
  sort_keys (num n) = num n
  sort_keys (str s) = str s
  sort_keys (arr xs) = arr (sort_keys_items xs)
  sort_keys (obj d) = obj (sort_keys_fields d)

  pub sort_keys_items : Items → Items
  sort_keys_items nil = nil
  sort_keys_items (cons v xs) = cons (sort_keys v) (sort_keys_items xs)

  pub sort_keys_fields : Fields → Fields
  sort_keys_fields end = end
  sort_keys_fields (field k v d) = insert_sorted k (sort_keys v) (sort_keys_fields d)

-- `f"{v}"`: a text is itself, any other value its `repr`
unfoldable pub to_text : Value → String
unfolding repr
to_text (str s) = s
to_text v = repr v

-- `json.dumps(d)`
unfoldable pub dumps : Fields → String
unfolding json
dumps d = json (obj d)

-- `json.dumps(d, sort_keys=True)`
unfoldable pub dumps_sorted : Fields → String
unfolding json sort_keys
dumps_sorted d = json (sort_keys (obj d))

dumps_test :
    dumps_sorted (field "b" (num (pos 7)) (field "a" (arr (cons (str "x") (cons null nil))) end))
    ≡ "{\"a\": [\"x\", null], \"b\": 7}"
unfolding dumps_sorted
dumps_test = refl
