-- ===== src/Access/Tests.antt =====
-- Runs of the access control (Access.antt), and its theorems at concrete inputs.
use tunnara.Prelude.{
  ◌≡◌, refl, ap, sym, ◌∙◌, arith, eq_iff, ◌⊎◌, ◌↔◌, ℕ, true, false, Option, none, some, String, [],
  ◌∷◌, ◌==◌, map,
}
use tunnara.Prelude.Members.{Memᴰ}
use tunnara.Prelude.Int.{ℤ, pos, eqb_ℤ}
use tunnara.Prelude.Text.{split, contains, eq_ignore_ascii_case, show_ℤ, trim, lower_is, show_ℕ}
use tunnara.Database.Tables.{User, Session}
use tunnara.Value.{Items, Fields, bool, number, string, array, nil, cons, end, field}
use tunnara.Access.Payload.{get_string, get_bool, get_i64, get_i64_array, parse_i64, validate_email}
use tunnara.Access.Users.{UserInput, user_input, user_get}
use tunnara.Access.Save.Saved.{Saved, user_save-Saved}
use tunnara.Access.Profiles.{profile_save, profile_delete}
use tunnara.Database.Command.{Result, ok, err, execute}
use tunnara.Database.{enqueue_sync, open_connection, write_app_log, write_audit}
use tunnara.Database.Keeping.{accounts, unlogged}
use tunnara.Access.Sessions.{
  AuthUser, LoginResponse, all_permission_keys, accept_session, active_user, auth_user_of,
  permissions_of, touch, require_session_by_token, build_auth_user,
}
use tunnara.Access.Sessions.Acceptance.{Accepted, require_session_by_token-eq_ok}
use tunnara.Access.Sessions.Rights.{Granted, build_auth_user-Granted}
use tunnara.Access.Sessions.Admission.{Valid, require_session_by_token_admits}
use tunnara.Access.Statements.{count_masters}
use tunnara.Access.Login.{auth_login, login_row, check_password, start_session}
use tunnara.Security.{hash_password, verify_password}
use tunnara.Logs.{sanitize_log_value}
use tunnara.Access.Rows.{sort_ids, sort_by, dedup}
use tunnara.Access.Login.Outcome.{LoggedIn, auth_login-eq_ok}
use tunnara.Access.Policy.Master.{Authorised, time_of}
use tunnara.Access.Policy.{
  ensure_master, load_login_min_length, parsed_min_length, user_policy_save,
}
use tunnara.Access.Save.{
  check_user, check_profile_id, check_company_id, write_user, write_links, report_user, remove_user,
  delete_as, user_save, user_delete,
}
use tunnara.Access.Save.Deletion.{HasMaster, without, user_delete-eq_ok, user_delete-HasMaster}
use tunnara.Access.Guard.{Unauthorised, administration-Unauthorised}
use tunnara.Access.Samples.{session, clock, ana, bia, tables, start}

session_run :
    (require_session_by_token clock " a" start).0
    ≡ ok (record { user_id = pos 1; master_user = true })
unfolding require_session_by_token accept_session execute trim show_ℕ
session_run = refl

login_run :
    map (λ s. s.session_token) (auth_login clock " ana" "segredo" start).1.db.sessions
    ≡ "b" ∷ "t1" ∷ []
unfolding auth_login login_row check_password start_session execute open_connection write_app_log
    sanitize_log_value trim lower_is build_auth_user active_user auth_user_of permissions_of
    all_permission_keys sort_by dedup verify_password show_ℕ
login_run = refl

require_session_by_token-eq_ok_example :
    Accepted tables "a" (clock.to_rfc3339 0) (record { user_id = pos 1; master_user = true })
    × ((require_session_by_token clock "a" start).1.db
        ≡ touch (trim "a") (clock.to_rfc3339 0) tables)
unfolding require_session_by_token accept_session execute trim show_ℕ
require_session_by_token-eq_ok_example =
    require_session_by_token-eq_ok clock "a" start (require_session_by_token clock "a" start).1
      (record { user_id = pos 1; master_user = true }) refl

abbrev bia_user : AuthUser
bia_user = record {
  id = pos 2;
  nome = "bia";
  login = "bia";
  email = none;
  telefone = none;
  cargo = none;
  photo_url = none;
  administrador = false;
  master_user = false;
  senha_provisoria = false;
  permission_keys = "logs:view" ∷ [];
  profile_names = "Vendas" ∷ [];
  company_ids = pos 1 ∷ [];
  company_names = "Loja" ∷ [];
}

build_auth_user-Granted_example :
    (u : User) × Memᴰ u tables.users
    × (u.id ≡ pos 2)
    × ((u.ativo == 0) ≡ false)
    × (pos 2 ≡ pos 2)
    × (false ≡ (u.master_user == 1))
    × (false ≡ true → bia_user.permission_keys ≡ all_permission_keys)
    × (false ≡ false
        → (key : String) → Memᴰ key bia_user.permission_keys ↔ Granted tables (pos 2) key)
unfolding build_auth_user active_user auth_user_of permissions_of execute all_permission_keys
    sort_by dedup
build_auth_user-Granted_example =
    build_auth_user-Granted clock (pos 2) start (build_auth_user clock (pos 2) start).1 bia_user
      refl

abbrev ana_answer : LoginResponse
unfolding all_permission_keys
ana_answer = record {
  success = true;
  message = "Login efetuado com sucesso.";
  session_token = some "t1";
  user = some (record {
    id = pos 1;
    nome = "Ana";
    login = "Ana";
    email = none;
    telefone = none;
    cargo = none;
    photo_url = none;
    administrador = true;
    master_user = true;
    senha_provisoria = false;
    permission_keys = all_permission_keys;
    profile_names = [];
    company_ids = [];
    company_names = [];
  });
}

auth_login-eq_ok_example :
    ((e : ℕ) × LoggedIn clock " ana" "segredo" tables
        (auth_login clock " ana" "segredo" start).1.db
        ana_answer
        e)
    ⊎ ((true ≡ false)
        × (◌≡◌ {A = Option String} (some "t1") none)
        × ((auth_login clock " ana" "segredo" start).1.db ≡ tables))
unfolding ana_answer auth_login login_row check_password start_session execute open_connection
    write_app_log sanitize_log_value trim lower_is build_auth_user active_user auth_user_of
    permissions_of all_permission_keys sort_by dedup verify_password show_ℕ
auth_login-eq_ok_example =
    auth_login-eq_ok clock " ana" "segredo" start (auth_login clock " ana" "segredo" start).1
      ana_answer refl

user_delete-eq_ok_example :
    (true ≡ true)
    × (actor : ℤ) × Authorised tables "a" (time_of clock start) actor
    × (eqb_ℤ actor (pos 2) ≡ false)
    × (unlogged (user_delete clock "a" (pos 2) start).1.db
        ≡ unlogged (without (pos 2) (touch (trim "a") (time_of clock start) tables)))
unfolding user_delete delete_as remove_user ensure_master require_session_by_token accept_session
    execute open_connection write_audit trim show_ℕ
user_delete-eq_ok_example =
    user_delete-eq_ok clock "a" (pos 2) start (user_delete clock "a" (pos 2) start).1 true refl

user_delete-HasMaster_example : HasMaster (user_delete clock "a" (pos 1) start).1.db
user_delete-HasMaster_example = user_delete-HasMaster clock "a" (pos 1) start (
  pos 1,
  record { user = ana; known = Memᴰ.head refl; same_id = refl; is_master = refl; active = refl },
)

stranger-Unauthorised : Unauthorised clock "x" start
unfolding trim
stranger-Unauthorised i a = other a.accepted.listed a.accepted.same_token
  where
    other : {t : Session} → Memᴰ t tables.sessions → t.session_token ≡ trim "x" → ⊥
    other (Memᴰ.head e) k =
        let q = eq_iff "a" "x" in
        let p : ◌≡◌ {A = String} "a" "x" = sym (ap (λ (t : Session). t.session_token) e) ∙ k in
        ground arith
    other (Memᴰ.tail (Memᴰ.tail m)) k = elim m [ ]
    other (Memᴰ.tail (Memᴰ.head e)) k =
        let q = eq_iff "b" "x" in
        let p : ◌≡◌ {A = String} "b" "x" = sym (ap (λ (t : Session). t.session_token) e) ∙ k in
        ground arith

abbrev one : Items
one = cons (number (record { as_i64 = some (pos 1); printed = "1" })) nil

abbrev demotion : Fields
demotion = field "id" (string "1") (
    field "nome" (string "Ana") (
      field "login" (string "Ana") (
        field "master_user" (bool false)
          (field "profile_ids" (array one) (field "empresa_ids" (string "1") end)))))

administration-Unauthorised_example :
    (accounts (user_save clock "x" demotion start).1.db ≡ accounts tables)
    × (accounts (user_delete clock "x" (pos 2) start).1.db ≡ accounts tables)
    × (accounts (profile_save clock "x" demotion start).1.db ≡ accounts tables)
    × (accounts (profile_delete clock "x" (pos 2) start).1.db ≡ accounts tables)
    × (accounts (user_policy_save clock "x" demotion start).1.db ≡ accounts tables)
administration-Unauthorised_example =
    administration-Unauthorised clock "x" start demotion (pos 2) stranger-Unauthorised

abbrev new_seller : Fields
new_seller = field "nome" (string "Cia") (
    field "login" (string "cia") (
      field "senha" (string "segredo")
        (field "profile_ids" (array one) (field "empresa_ids" (string "1") end))))

abbrev answered : Result Fields → Fields
answered (ok r) = r
answered (err m) = end

user_save_run :
    map (λ u. u.login) (user_save clock "a" new_seller start).1.db.users
    ≡ "Ana" ∷ "bia" ∷ "cia" ∷ []
unfolding user_save user_input get_string get_bool get_i64 get_i64_array parse_i64 validate_email
    check_user check_profile_id check_company_id load_login_min_length parsed_min_length write_user
    write_links report_user user_get sort_ids hash_password ensure_master require_session_by_token
    accept_session execute open_connection enqueue_sync write_audit trim split contains
    eq_ignore_ascii_case show_ℕ show_ℤ
user_save_run = refl

user_save-Saved_example :
    (input : UserInput) × (actor : ℤ) × (user_input clock new_seller ≡ ok input)
    × Authorised tables "a" (time_of clock start) actor
    × Saved clock actor
        (get_i64 new_seller "id")
        input
        (touch (trim "a") (time_of clock start) tables)
        (user_save clock "a" new_seller start).1.db
unfolding user_save user_input get_string get_bool get_i64 get_i64_array parse_i64 validate_email
    check_user check_profile_id check_company_id load_login_min_length parsed_min_length write_user
    write_links report_user user_get sort_ids hash_password ensure_master require_session_by_token
    accept_session execute open_connection enqueue_sync write_audit trim split contains
    eq_ignore_ascii_case show_ℕ show_ℤ
user_save-Saved_example =
    user_save-Saved clock "a" new_seller (answered (user_save clock "a" new_seller start).0) start
      (user_save clock "a" new_seller start).1 refl

only_session_b : (t : Session) → Memᴰ t tables.sessions → t.session_token ≡ "b" → t ≡ session 2 "b"
only_session_b t (Memᴰ.head e) k =
    let bad : ◌≡◌ {A = String} "a" "b" = sym (ap (λ (t : Session). t.session_token) e) ∙ k in
    let q = eq_iff "a" "b" in ground arith
only_session_b t (Memᴰ.tail (Memᴰ.head e)) k = e
only_session_b t (Memᴰ.tail (Memᴰ.tail m)) k = elim m [ ]

only_bia : (u : User) → Memᴰ u tables.users → u.id ≡ pos 2 → u ≡ bia
only_bia u (Memᴰ.head e) k =
    let bad : pos 1 ≡ pos 2 = sym (ap (λ (u : User). u.id) e) ∙ k in absurd (ground arith)
only_bia u (Memᴰ.tail (Memᴰ.head e)) k = e
only_bia u (Memᴰ.tail (Memᴰ.tail m)) k = elim m [ ]

start-Valid : Valid tables (trim " b") (clock.to_rfc3339 0) (session 2 "b") bia
unfolding trim show_ℕ
start-Valid = record {
  listed = Memᴰ.tail (Memᴰ.head refl);
  known = Memᴰ.tail (Memᴰ.head refl);
  same_token = refl;
  unexpired = refl;
  owner = refl;
  active = refl;
  only_session = only_session_b;
  only_user = only_bia;
}

require_session_by_token_admits_example :
    ((require_session_by_token clock " b" start).0
      ≡ ok (record { user_id = pos 2; master_user = false }))
    × ((require_session_by_token clock " b" start).1.db
        ≡ touch (trim " b") (clock.to_rfc3339 0) tables)
unfolding trim
require_session_by_token_admits_example =
    require_session_by_token_admits clock (λ e. refl) " b" start (session 2 "b") bia refl
      start-Valid

-- The only master takes its own flag away.
demotion_run : count_masters (user_save clock "a" demotion start).1.db ≡ 0
unfolding user_save user_input get_string get_bool get_i64 get_i64_array parse_i64 validate_email
    check_user check_profile_id check_company_id load_login_min_length parsed_min_length write_user
    write_links report_user user_get sort_ids hash_password ensure_master require_session_by_token
    accept_session execute open_connection enqueue_sync write_audit trim split contains
    eq_ignore_ascii_case show_ℕ show_ℤ
demotion_run = refl
