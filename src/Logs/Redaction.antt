-- ===== src/Logs/Redaction.antt =====
-- What the log keeps of the details (Logs.antt).
use tunnara.Prelude.{◌≡◌, ap, refl, true, Bool-cases, inl, inr, String}
use tunnara.Value.{
  Value, Items, Fields, null, bool, number, string, array, object, nil, cons, end, field,
}
use tunnara.Logs.{is_sensitive_key, sanitize_log_value, sanitize_items, sanitize_fields}

module _ (to_lowercase : String → String) where
  -- At every depth, what stands under a sensitive key is only the mark.
  abbrev mutual
    pub Redacted : Value → Type 0
    Redacted (object map) = RedactedFields map
    Redacted (array items) = RedactedItems items
    Redacted null = Unit
    Redacted (bool b) = Unit
    Redacted (number n) = Unit
    Redacted (string s) = Unit

    pub RedactedItems : Items → Type 0
    RedactedItems nil = Unit
    RedactedItems (cons v vs) = Redacted v × RedactedItems vs

    pub RedactedFields : Fields → Type 0
    RedactedFields end = Unit
    RedactedFields (field k v fs) =
        (is_sensitive_key to_lowercase k ≡ true → v ≡ string "***") × Redacted v × RedactedFields fs

  mutual
    unfolding sanitize_log_value

    sanitized-Redacted : (v : Value) → Redacted (sanitize_log_value to_lowercase v)
    sanitized-Redacted (object map) = sanitized_fields-Redacted map
    sanitized-Redacted (array items) = sanitized_items-Redacted items
    sanitized-Redacted null = tt
    sanitized-Redacted (bool b) = tt
    sanitized-Redacted (number n) = tt
    sanitized-Redacted (string s) = tt

    sanitized_items-Redacted : (vs : Items) → RedactedItems (sanitize_items to_lowercase vs)
    sanitized_items-Redacted nil = tt
    sanitized_items-Redacted (cons v vs) = (sanitized-Redacted v, sanitized_items-Redacted vs)

    sanitized_fields-Redacted : (fs : Fields) → RedactedFields (sanitize_fields to_lowercase fs)
    sanitized_fields-Redacted end = tt
    sanitized_fields-Redacted (field k v fs) = elim (Bool-cases (is_sensitive_key to_lowercase k)) [
      | inl hidden ↦ rw hidden (λ _. refl, tt, sanitized_fields-Redacted fs)
      | inr shown ↦ rw shown (λ e. cc, sanitized-Redacted v, sanitized_fields-Redacted fs)
    ]

  mutual
    unfolding sanitize_log_value

    sanitize_Redacted : (v : Value) → Redacted v → sanitize_log_value to_lowercase v ≡ v
    sanitize_Redacted (object map) r = ap object (sanitize_fields_Redacted map r)
    sanitize_Redacted (array items) r = ap array (sanitize_items_Redacted items r)
    sanitize_Redacted null r = refl
    sanitize_Redacted (bool b) r = refl
    sanitize_Redacted (number n) r = refl
    sanitize_Redacted (string s) r = refl

    sanitize_items_Redacted : (vs : Items) → RedactedItems vs → sanitize_items to_lowercase vs ≡ vs
    sanitize_items_Redacted nil r = refl
    sanitize_items_Redacted (cons v vs) (rv, rs) =
        cc (sanitize_Redacted v rv, sanitize_items_Redacted vs rs)

    sanitize_fields_Redacted :
        (fs : Fields) → RedactedFields fs → sanitize_fields to_lowercase fs ≡ fs
    sanitize_fields_Redacted end r = refl
    sanitize_fields_Redacted (field k v fs) (marked, rv, rs) =
        elim (Bool-cases (is_sensitive_key to_lowercase k)) [
          | inl hidden ↦ rw hidden (cc (marked hidden, sanitize_fields_Redacted fs rs))
          | inr shown ↦ rw shown (cc (sanitize_Redacted v rv, sanitize_fields_Redacted fs rs))
        ]

  -- In what is logged, nothing but the mark stands under a sensitive key, at any depth; and what
  -- has nothing else under its sensitive keys is logged as it is, so logging twice hides no more.
  pub sanitize_log_value-Redacted :
      (v : Value)
      → Redacted (sanitize_log_value to_lowercase v)
        × (Redacted v → sanitize_log_value to_lowercase v ≡ v)
        × (sanitize_log_value to_lowercase (sanitize_log_value to_lowercase v)
            ≡ sanitize_log_value to_lowercase v)
  sanitize_log_value-Redacted v = (
    sanitized-Redacted v,
    sanitize_Redacted v,
    sanitize_Redacted (sanitize_log_value to_lowercase v) (sanitized-Redacted v),
  )
