-- ===== src/Access/Statements.antt =====
-- The statements on users, profiles and their links, with the constraints of
-- apps/console/src-tauri/src/migrations.rs.
use tunnara.Prelude.{
  ℕ, suc, Bool, true, not, ◌&&◌, Option, none, some, String, ◌++◌, ◌∷◌, [], map, filter, any,
  if◌then◌else◌, str_eq, length, ◌==◌,
}
use tunnara.Prelude.Int.{ℤ, pos, eqb_ℤ}
use tunnara.Prelude.Text.{eq_ignore_ascii_case}
use tunnara.Database.Tables.{Database, User, Profile, ProfilePermission, UserProfile, UserCompany}
use tunnara.Database.Command.{Result, ok}
use tunnara.Access.Rows.{violated, has_user, has_profile, has_company, user_by_id}

-- `?2 IS NULL OR id <> ?2`
abbrev pub another : Option ℤ → ℤ → Bool
another none i = true
another (some j) i = not (eqb_ℤ i j)

-- `LOWER(login) = LOWER(?1) AND (?2 IS NULL OR id <> ?2)`
abbrev pub login_taken : String → Option ℤ → Database → Bool
login_taken login id db = any (λ u. eq_ignore_ascii_case u.login login && another id u.id) db.users

abbrev pub profile_taken : String → Option ℤ → Database → Bool
profile_taken nome id db =
    any (λ p. eq_ignore_ascii_case p.nome nome && another id p.id) db.profiles

-- Whether writing `login` into the user of that number, or into a new one, breaks `UNIQUE`.
abbrev pub login_clash : String → Option ℤ → Database → Bool
login_clash login id db = any (λ u. str_eq u.login login && another id u.id) db.users

abbrev pub profile_clash : String → Option ℤ → Database → Bool
profile_clash nome id db = any (λ p. str_eq p.nome nome && another id p.id) db.profiles

-- `UPDATE usuarios SET … WHERE id = ?`, with the login that it writes
abbrev pub set_user : ℤ → String → (User → User) → Database → Result (Unit {0} × Database)
set_user i login f db =
    if has_user i db && login_clash login (some i) db
    then violated "UNIQUE constraint failed: usuarios.login"
    else ok (tt, record db { users = map (λ u. if eqb_ℤ u.id i then f u else u) db.users })

-- The insertion of a user, and `last_insert_rowid`.
abbrev pub insert_user : (ℤ → User) → String → Database → Result (ℤ × Database)
insert_user row login db =
    if login_clash login none db
    then violated "UNIQUE constraint failed: usuarios.login"
    else ok (
      pos (suc db.last_user),
      record db {
        users = db.users ++ (row (pos (suc db.last_user)) ∷ []);
        last_user = suc db.last_user;
      },
    )

-- `DELETE FROM usuarios WHERE id = ?1`, with what the foreign keys delete, and the number of
-- the users that it deletes.
abbrev pub delete_user : ℤ → Database → Result (ℕ × Database)
delete_user i db = ok (
  length (filter (λ u. eqb_ℤ u.id i) db.users),
  record db {
    users = filter (λ u. not (eqb_ℤ u.id i)) db.users;
    sessions = filter (λ s. not (eqb_ℤ s.usuario_id i)) db.sessions;
    user_profiles = filter (λ l. not (eqb_ℤ l.usuario_id i)) db.user_profiles;
    user_companies = filter (λ l. not (eqb_ℤ l.usuario_id i)) db.user_companies;
  },
)

abbrev pub set_profile : ℤ → String → (Profile → Profile) → Database → Result (Unit {0} × Database)
set_profile i nome f db =
    if has_profile i db && profile_clash nome (some i) db
    then violated "UNIQUE constraint failed: perfis_acesso.nome"
    else ok (tt, record db { profiles = map (λ p. if eqb_ℤ p.id i then f p else p) db.profiles })

abbrev pub insert_profile : (ℤ → Profile) → String → Database → Result (ℤ × Database)
insert_profile row nome db =
    if profile_clash nome none db
    then violated "UNIQUE constraint failed: perfis_acesso.nome"
    else ok (
      pos (suc db.last_profile),
      record db {
        profiles = db.profiles ++ (row (pos (suc db.last_profile)) ∷ []);
        last_profile = suc db.last_profile;
      },
    )

abbrev pub delete_profile : ℤ → Database → Result (ℕ × Database)
delete_profile i db = ok (
  length (filter (λ p. eqb_ℤ p.id i) db.profiles),
  record db {
    profiles = filter (λ p. not (eqb_ℤ p.id i)) db.profiles;
    permissions = filter (λ q. not (eqb_ℤ q.perfil_id i)) db.permissions;
    user_profiles = filter (λ l. not (eqb_ℤ l.perfil_id i)) db.user_profiles;
  },
)

abbrev pub insert_permission : ProfilePermission → Database → Result (Unit {0} × Database)
insert_permission q db =
    if any (λ r. eqb_ℤ r.perfil_id q.perfil_id && str_eq r.permissao_chave q.permissao_chave)
      db.permissions
    then violated
        "UNIQUE constraint failed: perfis_permissoes.perfil_id, perfis_permissoes.permissao_chave"
    else if not (has_profile q.perfil_id db)
    then violated "FOREIGN KEY constraint failed"
    else ok (tt, record db { permissions = db.permissions ++ (q ∷ []) })

abbrev pub link_profile : UserProfile → Database → Result (Unit {0} × Database)
link_profile l db =
    if any (λ k. eqb_ℤ k.usuario_id l.usuario_id && eqb_ℤ k.perfil_id l.perfil_id) db.user_profiles
    then violated "UNIQUE constraint failed: usuarios_perfis.usuario_id, usuarios_perfis.perfil_id"
    else if not (has_user l.usuario_id db && has_profile l.perfil_id db)
    then violated "FOREIGN KEY constraint failed"
    else ok (tt, record db { user_profiles = db.user_profiles ++ (l ∷ []) })

abbrev pub link_company : UserCompany → Database → Result (Unit {0} × Database)
link_company l db =
    if any (λ k. eqb_ℤ k.usuario_id l.usuario_id && eqb_ℤ k.empresa_id l.empresa_id)
      db.user_companies
    then violated
        "UNIQUE constraint failed: usuarios_empresas.usuario_id, usuarios_empresas.empresa_id"
    else if not (has_user l.usuario_id db && has_company l.empresa_id db)
    then violated "FOREIGN KEY constraint failed"
    else ok (tt, record db { user_companies = db.user_companies ++ (l ∷ []) })

-- The active masters: `SELECT COUNT(*) FROM usuarios WHERE master_user = 1 AND ativo = 1`.
abbrev pub is_active_master : User → Bool
is_active_master u = u.master_user == 1 && u.ativo == 1

abbrev pub count_masters : Database → ℕ
count_masters db = length (filter is_active_master db.users)

-- `SELECT COALESCE(master_user, 0) FROM usuarios WHERE id = ?1`, or 0
abbrev pub master_flag : ℤ → Database → ℕ
master_flag i db = elim (user_by_id i db) [ none ↦ 0 | some u ↦ u.master_user ]
