-- ===== src/Access/Samples.antt =====
-- An engine and tables for the tests: the environment is a count that each call raises.
use tunnara.Prelude.{ℕ, suc, ◌+◌, none, some, String, [], ◌∷◌, str_eq}
use tunnara.Prelude.Int.{pos}
use tunnara.Prelude.Text.{◌++◌, show_ℕ}
use tunnara.Database.Tables.{Database, Company, User, Session}
use tunnara.Database.Command.{ok, Engine, State}

-- Times are texts of one length.
abbrev pub clock : Engine ℕ
clock = record {
  utc_now = λ n. (n, suc n);
  to_rfc3339 = λ n. show_ℕ (1000000000000000 + n);
  datetime_now = λ n. (show_ℕ n, suc n);
  new_v4 = λ n. ("t" ++ show_ℕ n, suc n);
  fault = λ n. (none, n);
  db_path = λ n. (ok tt, n);
  data_dir = λ n. (ok tt, n);
  append_log = λ l n. (ok tt, n);
  argon_hash = λ p n. (ok ("h:" ++ p), n);
  argon_parse = λ h. none;
  argon_verify = λ p h. str_eq ("h:" ++ p) h;
  to_lowercase = λ s. s;
  to_uppercase = λ s. s;
  sql_upper = λ s. s;
}

abbrev pub user : ℕ → String → ℕ → User
user i login master = record {
  id = pos i;
  nome = login;
  login = login;
  email = none;
  telefone = none;
  cargo = none;
  observacoes = none;
  photo_url = none;
  senha_hash = "h:segredo";
  master_user = master;
  administrador = master;
  senha_provisoria = 0;
  ultimo_login_em = none;
  ativo = 1;
  created_at = "0";
  updated_at = "0";
}

abbrev pub ana : User
ana = user 1 "Ana" 1

abbrev pub bia : User
bia = user 2 "bia" 0

abbrev pub session : ℕ → String → Session
session i token = record {
  usuario_id = pos i;
  session_token = token;
  created_at = "0";
  expires_at = "2000000000000000";
  last_activity_at = "0";
}

abbrev pub shop : Company
shop = record {
  id = pos 1;
  nome = "Loja";
  nome_fantasia = none;
  documento = some "12345678000195";
  inscricao_estadual = none;
  inscricao_municipal = none;
  telefone = none;
  email = none;
  responsavel_nome = none;
  responsavel_telefone = none;
  cep = none;
  endereco = none;
  numero = none;
  complemento = none;
  bairro = none;
  cidade = none;
  estado = none;
  observacoes = none;
  ativo = 1;
  created_at = "0";
  updated_at = "0";
}

-- Ana is a master, Bia is not; each has a session.
abbrev pub tables : Database
tables = record {
  users = ana ∷ bia ∷ [];
  profiles =
      record {
        id = pos 1;
        nome = "Vendas";
        descricao = none;
        perfil_master = 0;
        ativo = 0;
        created_at = "0";
        updated_at = "0";
      }
      ∷ [];
  permissions = record { perfil_id = pos 1; permissao_chave = "logs:view"; created_at = "0" } ∷ [];
  user_profiles = record { usuario_id = pos 2; perfil_id = pos 1; created_at = "0" } ∷ [];
  user_companies = record { usuario_id = pos 2; empresa_id = pos 1; created_at = "0" } ∷ [];
  sessions = session 1 "a" ∷ session 2 "b" ∷ [];
  companies = shop ∷ [];
  local_licenses = [];
  settings = [];
  audit_logs = [];
  sync_queue = [];
  app_logs = [];
  last_user = 2;
  last_profile = 1;
  last_company = 1;
}

abbrev pub start : State ℕ
start = record { db = tables; env = 0 }
