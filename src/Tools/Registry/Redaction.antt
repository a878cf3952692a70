-- ===== src/Tools/Registry/Redaction.antt =====
-- What `_sanitize_params` leaves to the log.
use ops_pilot_ai.Prelude.{
  String, ◌≡◌, refl, ap, Bool, true, ◌&&◌, none, some, arith, eq_iff, eq_refl, if◌then◌else◌, ℕ_eq,
  String_eq,
}
use ops_pilot_ai.Value.{Value, null, bool, num, str, arr, obj, Fields, end, field, get, is_text}
use ops_pilot_ai.Tools.Registry.{is_secret, sanitize_params, sanitize_value}

-- Every secret key holds the mark, here and in the dictionaries that stand as values of keys, at any
-- depth; lists are not looked into.
unfoldable mutual
  pub is_redacted : Fields → Bool
  is_redacted end = true
  is_redacted (field k v d) =
      (if is_secret k then is_text "[REDACTED]" v else is_redacted_value v) && is_redacted d

  pub is_redacted_value : Value → Bool
  is_redacted_value (obj d) = is_redacted d
  is_redacted_value null = true
  is_redacted_value (bool b) = true
  is_redacted_value (num n) = true
  is_redacted_value (str s) = true
  is_redacted_value (arr xs) = true

mutual
  unfolding sanitize_params is_redacted is_text

  redacted_fields : (d : Fields) → is_redacted (sanitize_params d) ≡ true
  redacted_fields end = refl
  redacted_fields (field k v d) =
      ground (arith, redacted_fields d, redacted_value v, eq_refl "[REDACTED]")

  redacted_value : (v : Value) → is_redacted_value (sanitize_value v) ≡ true
  redacted_value (obj d) = redacted_fields d
  redacted_value null = refl
  redacted_value (bool b) = refl
  redacted_value (num n) = refl
  redacted_value (str s) = refl
  redacted_value (arr xs) = refl

mutual
  unfolding sanitize_params

  idem_fields : (d : Fields) → sanitize_params (sanitize_params d) ≡ sanitize_params d
  idem_fields end = refl
  idem_fields (field k v d) = ground (arith, idem_fields d, idem_value v)

  idem_value : (v : Value) → sanitize_value (sanitize_value v) ≡ sanitize_value v
  idem_value (obj d) = ap obj (idem_fields d)
  idem_value null = refl
  idem_value (bool b) = refl
  idem_value (num n) = refl
  idem_value (str s) = refl
  idem_value (arr xs) = refl

-- The value of a key after sanitizing: the mark for a secret key, and else the value with its own
-- dictionaries sanitized.
get-sanitize_params :
    (k : String) (d : Fields)
    → get k (sanitize_params d) ≡ elim (get k d) [
      | none ↦ none
      | some v ↦ some (if is_secret k then str "[REDACTED]" else sanitize_value v)
    ]
unfolding get sanitize_params
get-sanitize_params k end = refl
get-sanitize_params k (field j v d) = ground (arith, get-sanitize_params k d, eq_iff j k)

-- The arguments that the log shows have the mark at every secret key, also in the dictionaries that
-- stand as values of keys, at any depth of such nesting; of dictionaries in a list nothing is said.
-- They show at each key the mark or the sanitized value of that key, and are not changed by sanitizing
-- them again.
pub sanitize_params_exact :
    (d : Fields)
    → (is_redacted (sanitize_params d) ≡ true)
      × ((k : String)
          → get k (sanitize_params d) ≡ elim (get k d) [
            | none ↦ none
            | some v ↦ some (if is_secret k then str "[REDACTED]" else sanitize_value v)
          ])
      × (sanitize_params (sanitize_params d) ≡ sanitize_params d)
sanitize_params_exact d = (redacted_fields d, λ k. get-sanitize_params k d, idem_fields d)
