-- ===== src/Access/Policy/Bounds.antt =====
-- The bounds of the policy for logins (Access/Policy.antt).
use tunnara.Prelude.{
  ◌≡◌, ap, sym, ◌∙◌, Option, none, some, String, find, str_eq, unwrap_or, and_then, arith,
}
use mathlib.Core.Path.{subst}
use tunnara.Prelude.Text.{trim}
use tunnara.Access.Payload.{parse_i64}
use tunnara.Prelude.Int.{ℤ, pos, negsuc, ◌≤ℤ◌}
use tunnara.Database.Tables.{Database, Setting}
use tunnara.Database.Command.{ok, Engine, State, execute, pure}
use tunnara.Database.Command.Rules.{bind-eq_ok, execute-eq_ok, pure-eq_ok, fst_ok, snd_ok}
use tunnara.Access.Policy.{
  clamp_login_min_length, setting_text, column_text, optional_text, user_login_min_length_key,
  parsed_min_length, load_login_min_length,
}

-- The least length that the setting in the table stands for.
abbrev pub Policy : Database → ℤ → Type 0
Policy db least =
    (raw : Option String) × (setting_text user_login_min_length_key db ≡ ok (raw, db))
    × (least ≡ parsed_min_length raw)

clamp-bounds : (v : ℤ) → (pos 1 ≤ℤ clamp_login_min_length v) × (clamp_login_min_length v ≤ℤ pos 64)
clamp-bounds (pos n) = (ground arith, ground arith)
clamp-bounds (negsuc n) = (ground arith, ground arith)

column_text-db :
    (valor : Option String) (db db' : Database) (raw : Option String)
    → column_text valor db ≡ ok (raw, db')
    → db' ≡ db
column_text-db none db db' raw h = cc
column_text-db (some v) db db' raw h = sym (snd_ok h)

optional_text-db :
    (row : Option Setting) (db db' : Database) (raw : Option String)
    → optional_text row db ≡ ok (raw, db')
    → db' ≡ db
optional_text-db none db db' raw h = sym (snd_ok h)
optional_text-db (some c) db db' raw h = column_text-db c.valor db db' raw h

module _ {E : Type 0} (engine : Engine E) where
  pub load_login_min_length-eq_ok :
      (s s' : State E) (least : ℤ)
      → load_login_min_length engine s ≡ (ok least, s')
      → Policy s.db least × (s'.db ≡ s.db)
  unfolding load_login_min_length
  load_login_min_length-eq_ok s s' least h =
      let (raw, s₁, h₁, k₁) =
        bind-eq_ok
          (execute engine "Falha ao consultar política de login: "
            (setting_text user_login_min_length_key))
          (λ raw. pure (parsed_min_length raw)) s least s' h in
      let e = execute-eq_ok engine _ (setting_text user_login_min_length_key) s s₁ raw h₁ in
      let same =
        optional_text-db (find (λ c. str_eq c.chave user_login_min_length_key) s.db.settings) s.db
          s₁.db raw e in
      let (value, left) = pure-eq_ok (parsed_min_length raw) least s₁ s' k₁ in
      (
        (raw, e ∙ ap (λ db. ok (raw, db)) same, sym value),
        sym (ap (λ (t : State E). t.db) left) ∙ same,
      )

  -- Whatever text the setting holds, the least length that is read is between 1 and 64, and it is
  -- 2 where there is no setting; reading it changes no table.
  pub load_login_min_length-bounds :
      (s s' : State E) (least : ℤ)
      → load_login_min_length engine s ≡ (ok least, s')
      → (pos 1 ≤ℤ least)
        × (least ≤ℤ pos 64)
        × (find (λ c. str_eq c.chave user_login_min_length_key) s.db.settings ≡ none
            → least ≡ pos 2)
        × (s'.db ≡ s.db)
  unfolding parsed_min_length
  load_login_min_length-bounds s s' least h =
      let ((raw, found, e), same) = load_login_min_length-eq_ok s s' least h in
      let (low, high) = clamp-bounds (unwrap_or (and_then raw (λ v. parse_i64 (trim v))) (pos 2)) in
      (
        subst (λ v. pos 1 ≤ℤ v) (sym e) low,
        subst (λ v. v ≤ℤ pos 64) (sym e) high,
        λ n. e ∙ ap parsed_min_length (unset n found),
        same,
      )
    where
      unset :
          {raw : Option String}
          → find (λ c. str_eq c.chave user_login_min_length_key) s.db.settings ≡ none
          → setting_text user_login_min_length_key s.db ≡ ok (raw, s.db)
          → raw ≡ none
      unset n f = sym (fst_ok (sym (ap (λ o. optional_text o s.db) n) ∙ f))
