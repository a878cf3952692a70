-- ===== src/Safety/Destructive.antt =====
-- src/safety/policy.py: `DESTRUCTIVE_PATTERNS` and `detect_destructive_payload`.
use ops_pilot_ai.Prelude.{
  String, ◌≡◌, refl, Bool, true, false, List, [], ◌∷◌, ◌++◌, map, if◌then◌else◌, ℕ_eq, String_eq,
  any_of,
}
use ops_pilot_ai.Regex
use ops_pilot_ai.Regex.{
  Regex, text, space, not_space, letter, word_boundary, empty, seq, alt, plus, any_text,
}
use ops_pilot_ai.Value.{Value, null, bool, num, str, arr, obj, Items, nil, cons, Fields, end, field}
use ops_pilot_ai.Value.Text.{dumps}

-- r"(?i)\b(drop\s+(?:table|…)|truncate(?:\s+table)?|…)\b", the alternatives in their order
unfoldable pub destructive_patterns : Regex
destructive_patterns = seq word_boundary (seq commands word_boundary)
  where
    objects : Regex
    objects = any_text ("table" ∷ "database" ∷ "schema" ∷ "view" ∷ "index" ∷ [])

    drop_object : Regex
    drop_object = seq (text "drop") (seq (plus space) objects)

    truncate : Regex
    truncate = seq (text "truncate") (alt (seq (plus space) (text "table")) empty)

    delete_from : Regex
    delete_from = seq (text "delete") (seq (plus space) (text "from"))

    rm : Regex
    rm = seq (text "rm") (
        seq (plus space)
          (seq (text "-") (seq (any_text ("r" ∷ "f" ∷ "rf" ∷ "fr" ∷ [])) word_boundary)))

    format_drive : Regex
    format_drive = seq (text "format") (seq (plus space) (seq letter (text ":")))

    alter_drop : Regex
    alter_drop = seq (text "alter") (
        seq (plus space) (
          seq (text "table")
            (seq (plus space) (seq (plus not_space) (seq (plus space) (text "drop"))))))

    commands : Regex
    commands = alt drop_object (
        alt truncate (
          alt delete_from
            (alt rm (alt format_drive (alt (text "flushall") (alt (text "flushdb") alter_drop))))))

-- `_extract_strings`: the texts and the keys at any depth
unfoldable mutual
  pub extract_strings : Value → List String
  extract_strings null = []
  extract_strings (bool b) = []
  extract_strings (num n) = []
  extract_strings (str s) = s ∷ []
  extract_strings (arr xs) = extract_items xs
  extract_strings (obj d) = extract_fields d

  pub extract_items : Items → List String
  extract_items nil = []
  extract_items (cons v xs) = extract_strings v ++ extract_items xs

  pub extract_fields : Fields → List String
  extract_fields end = []
  extract_fields (field k v d) = k ∷ (extract_strings v ++ extract_fields d)

unfoldable pub is_destructive_text : String → Bool
unfolding Regex.search destructive_patterns
is_destructive_text s = Regex.search destructive_patterns s

unfoldable pub detect_destructive_payload : Fields → Bool
unfolding extract_strings is_destructive_text dumps
detect_destructive_payload parameters =
    if any_of is_destructive_text (extract_strings (obj parameters))
    then true
    else is_destructive_text (dumps parameters)

patterns_test :
    map is_destructive_text (
      "DROP  table users" ∷ "truncate logs" ∷ "rm -rf /" ∷ "alter table a drop column b"
      ∷ "backdrop table" ∷ "format c:" ∷ "drop_table" ∷ [])
    ≡ true ∷ true ∷ true ∷ true ∷ false ∷ false ∷ false ∷ []
unfolding is_destructive_text
patterns_test = refl
