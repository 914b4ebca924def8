-- ===== src/Access/Save/Outcome.antt =====
-- What `user_save` writes of the user itself (Access/Save.antt).
use tunnara.Prelude.{
  ◌≡◌, refl, ap, sym, ◌∙◌, suc, false, Bool-cases, inl, inr, Option, none, some, String, [], ◌∷◌,
  ◌++◌, map, if◌then◌else◌, ◌&&◌, ◌≤◌, arith,
}
use mathlib.Core.Path.{subst}
use tunnara.Prelude.Int.{ℤ, pos, eqb_ℤ}
use tunnara.Prelude.Text.{trim}
use Prim.Native.String as Native
use tunnara.Database.Tables.{Database, User}
use tunnara.Database.Command.{Result, ok, err, Engine, State, pure, execute}
use tunnara.Database.Command.Rules.{bind-eq_ok, execute-eq_ok, pure-eq_ok}
use tunnara.Security.{or_text, hash_password}
use tunnara.Access.Rows.{has_user}
use tunnara.Access.Statements.{login_clash, set_user, insert_user}
use tunnara.Access.Users.{UserInput, write_columns, new_user}
use tunnara.Access.Save.{refuse_if, too_short, write_user}
use tunnara.Access.Save.Checks.{refuse_if-eq_ok}

-- The row of a user with what the input has.
abbrev pub as_given : UserInput → String → String → Option String → String → ℤ → User
as_given input now senha_hash ultimo_login_em created_at id = record {
  id = id;
  nome = input.nome;
  login = input.login;
  email = input.email;
  telefone = input.telefone;
  cargo = input.cargo;
  observacoes = input.observacoes;
  photo_url = input.photo_url;
  senha_hash = senha_hash;
  master_user = input.master_user;
  administrador = input.administrador;
  senha_provisoria = input.senha_provisoria;
  ultimo_login_em = ultimo_login_em;
  ativo = input.ativo;
  created_at = created_at;
  updated_at = now;
}

set_user-eq_ok :
    (i : ℤ) (login : String) (f : User → User) (db db' : Database) (u : Unit {0})
    → set_user i login f db ≡ ok (u, db')
    → db' ≡ record db { users = map (λ u. if eqb_ℤ u.id i then f u else u) db.users }
set_user-eq_ok i login f db db' u h =
    elim (Bool-cases (has_user i db && login_clash login (some i) db)) [
      | inl e ↦ ground arith
      | inr e ↦ ground arith
    ]

insert_user-eq_ok :
    (row : ℤ → User) (login : String) (db db' : Database) (i : ℤ)
    → insert_user row login db ≡ ok (i, db')
    → (i ≡ pos (suc db.last_user))
      × (db' ≡ record db {
        users = db.users ++ (row (pos (suc db.last_user)) ∷ []);
        last_user = suc db.last_user;
      })
insert_user-eq_ok row login db db' i h = elim (Bool-cases (login_clash login none db)) [
  | inl e ↦ (ground arith, ground arith)
  | inr e ↦ (ground arith, ground arith)
]

module _ {E : Type 0} (engine : Engine E) where
  hash_password-db :
      (p : String) (s s' : State E) (h : String)
      → hash_password engine p s ≡ (ok h, s')
      → s'.db ≡ s.db
  unfolding hash_password
  hash_password-db p s s' h e = sym (ap (λ (x : Result String × State E). x.1.db) e)

  -- A password of six bytes at least, but for spaces around it, and a hash of it.
  abbrev pub Hashed : String → String → Type 0
  Hashed raw hash =
      (6 ≤ Native.len (trim raw)) × (e : E) × ((engine.argon_hash (trim raw) e).0 ≡ ok hash)

  -- The hash of an updated user: as it was where no password is given, and otherwise one of that.
  abbrev pub Rehashed : Option String → (String → String) → Type 0
  Rehashed none hash_of = (old : String) → hash_of old ≡ old
  Rehashed (some raw) hash_of =
      (hash : String) × Hashed raw hash × ((old : String) → hash_of old ≡ hash)

  -- The table of users once the input was written: into the user of that number, which keeps its
  -- last login and the time of its creation, or into a new user with the next number.
  abbrev pub Written : Option ℤ → UserInput → String → Database → ℤ → Database → Type 0
  Written (some i) input now db rid db' =
      (rid ≡ i)
      × (hash_of : String → String) × Rehashed input.password hash_of
      × (db' ≡ record db {
        users =
            map
              (λ u.
                if eqb_ℤ u.id i
                then as_given input now (hash_of u.senha_hash) u.ultimo_login_em u.created_at u.id
                else u)
              db.users;
      })
  Written none input now db rid db' =
      (rid ≡ pos (suc db.last_user))
      × (raw : String) × (hash : String) × (input.password ≡ some raw)
      × Hashed raw hash
      × (db' ≡ record db {
        users = db.users ++ (as_given input now hash none now (pos (suc db.last_user)) ∷ []);
        last_user = suc db.last_user;
      })

  or_text-eq_ok :
      {A : Type 0} (context : String) (r : Result A) (a : A)
      → or_text engine context r ≡ ok a
      → r ≡ ok a
  or_text-eq_ok context (ok b) a h = h
  or_text-eq_ok context (err m) a h = cc

  hash_password-eq_ok :
      (p : String) (s s' : State E) (h : String)
      → hash_password engine p s ≡ (ok h, s')
      → (engine.argon_hash p s.env).0 ≡ ok h
  unfolding hash_password
  hash_password-eq_ok p s s' h e = or_text-eq_ok _ _ h (ap (λ (x : Result String × State E). x.0) e)

  long_password : (raw : String) → too_short raw ≡ false → 6 ≤ Native.len (trim raw)
  long_password raw h = ground arith

  pub write_user-Written :
      (id : Option ℤ) (password : Option String) (input : UserInput) (now : String) (s s' : State E)
      (rid : ℤ)
      → input.password ≡ password
      → write_user engine id password input now s ≡ (ok rid, s')
      → Written id input now s.db rid s'.db
  unfolding write_user
  write_user-Written (some i) (some raw) input now s s' rid p h =
      let (_, s₁, h₁, k₁) =
        bind-eq_ok (refuse_if (too_short raw) "A senha deve conter ao menos 6 caracteres.") _ s rid
          s' h in
      let (short, d₁) = refuse_if-eq_ok engine (too_short raw) _ s s₁ _ h₁ in
      let (hash, s₂, h₂, k₂) = bind-eq_ok (hash_password engine (trim raw)) _ s₁ rid s' k₁ in
      let hashed : Hashed raw hash =
        (long_password raw short, s₁.env, hash_password-eq_ok (trim raw) s₁ s₂ hash h₂) in
      let e : s₂.db ≡ s.db = hash_password-db (trim raw) s₁ s₂ hash h₂ ∙ d₁ in
      let f : User → User = λ u. record (write_columns input now u) { senha_hash = hash } in
      let (u, s₃, h₃, k₃) =
        bind-eq_ok (execute engine "Falha ao atualizar usuário: " (set_user i input.login f))
          (λ _. pure i) s₂ rid s' k₂ in
      let (q, same) = pure-eq_ok i rid s₃ s' k₃ in
      let d =
        set_user-eq_ok i input.login f s₂.db s₃.db u
          (execute-eq_ok engine _ (set_user i input.login f) s₂ s₃ u h₃) in
      subst (λ db. Written (some i) input now db rid s'.db) e
        (
          sym q,
          λ _. hash,
          subst (λ o. Rehashed o (λ _. hash)) (sym p) (hash, hashed, λ _. refl),
          sym (ap (λ (t : State E). t.db) same) ∙ d,
        )
  write_user-Written (some i) none input now s s' rid p h =
      let (u, s₁, h₁, k₁) =
        bind-eq_ok
          (execute engine "Falha ao atualizar usuário: "
            (set_user i input.login (write_columns input now)))
          (λ _. pure i) s rid s' h in
      let (e, same) = pure-eq_ok i rid s₁ s' k₁ in
      let d =
        set_user-eq_ok i input.login (write_columns input now) s.db s₁.db u
          (execute-eq_ok engine _ (set_user i input.login (write_columns input now)) s s₁ u h₁) in
      (
        sym e,
        λ old. old,
        subst (λ o. Rehashed o (λ old. old)) (sym p) (λ _. refl),
        sym (ap (λ (t : State E). t.db) same) ∙ d,
      )
  write_user-Written none none input now s s' rid p h = cc
  write_user-Written none (some raw) input now s s' rid p h =
      let (_, s₁, h₁, k₁) =
        bind-eq_ok (refuse_if (too_short raw) "A senha deve conter ao menos 6 caracteres.") _ s rid
          s' h in
      let (short, d₁) = refuse_if-eq_ok engine (too_short raw) _ s s₁ _ h₁ in
      let (hash, s₂, h₂, k₂) =
        bind-eq_ok (hash_password engine (trim raw))
          (λ hash.
            execute engine "Falha ao inserir usuário: "
              (insert_user (new_user input hash now) input.login))
          s₁ rid s' k₁ in
      let e : s₂.db ≡ s.db = hash_password-db (trim raw) s₁ s₂ hash h₂ ∙ d₁ in
      let (i, d) =
        insert_user-eq_ok (new_user input hash now) input.login s₂.db s'.db rid (
          execute-eq_ok engine _ (insert_user (new_user input hash now) input.login) s₂ s' rid
            k₂) in
      subst (λ db. Written none input now db rid s'.db) e
        (
          i,
          raw,
          hash,
          p,
          (long_password raw short, s₁.env, hash_password-eq_ok (trim raw) s₁ s₂ hash h₂),
          d,
        )
