-- ===== src/Database/Tables.antt =====
-- The tables of apps/console/src-tauri/src/migrations.rs that the modelled commands read and
-- write, each as the list of its rows in the order of insertion. A flag is the number in its
-- column, and a time is the text that the code writes. Of a table of links, the number of the
-- row is left out: nothing reads it.
use tunnara.Prelude.{ℕ, Option, String, List}
use tunnara.Prelude.Int.{ℤ}
use tunnara.Value.{Value}

-- `usuarios`
pub record User : Type 0 where
  pub id : ℤ
  pub nome : String
  pub login : String
  pub email : Option String
  pub telefone : Option String
  pub cargo : Option String
  pub observacoes : Option String
  pub photo_url : Option String
  pub senha_hash : String
  pub master_user : ℕ
  pub administrador : ℕ
  pub senha_provisoria : ℕ
  pub ultimo_login_em : Option String
  pub ativo : ℕ
  pub created_at : String
  pub updated_at : String

-- `perfis_acesso`
pub record Profile : Type 0 where
  pub id : ℤ
  pub nome : String
  pub descricao : Option String
  pub perfil_master : ℕ
  pub ativo : ℕ
  pub created_at : String
  pub updated_at : String

-- `perfis_permissoes`
pub record ProfilePermission : Type 0 where
  pub perfil_id : ℤ
  pub permissao_chave : String
  pub created_at : String

-- `usuarios_perfis`
pub record UserProfile : Type 0 where
  pub usuario_id : ℤ
  pub perfil_id : ℤ
  pub created_at : String

-- `usuarios_empresas`
pub record UserCompany : Type 0 where
  pub usuario_id : ℤ
  pub empresa_id : ℤ
  pub created_at : String

-- `user_sessions`
pub record Session : Type 0 where
  pub usuario_id : ℤ
  pub session_token : String
  pub created_at : String
  pub expires_at : String
  pub last_activity_at : String

-- `empresas`
pub record Company : Type 0 where
  pub id : ℤ
  pub nome : String
  pub nome_fantasia : Option String
  pub documento : Option String
  pub inscricao_estadual : Option String
  pub inscricao_municipal : Option String
  pub telefone : Option String
  pub email : Option String
  pub responsavel_nome : Option String
  pub responsavel_telefone : Option String
  pub cep : Option String
  pub endereco : Option String
  pub numero : Option String
  pub complemento : Option String
  pub bairro : Option String
  pub cidade : Option String
  pub estado : Option String
  pub observacoes : Option String
  pub ativo : ℕ
  pub created_at : String
  pub updated_at : String

-- What the companies' constraints read of `local_licenses`.
pub record LocalLicense : Type 0 where
  pub empresa_id : ℤ

-- `app_settings`
pub record Setting : Type 0 where
  pub chave : String
  pub valor : Option String
  pub created_at : String
  pub updated_at : String

-- `audit_logs`, and `sync_queue` but for its status, which is 'pending'.
pub record Entry : Type 0 where
  pub entity_name : String
  pub action_name : String
  pub record_id : Option ℤ
  pub payload_json : Value
  pub created_at : String

-- `app_logs`
pub record AppLog : Type 0 where
  pub level : String
  pub category : String
  pub message : String
  pub source : Option String
  pub route : Option String
  pub details_json : Option Value
  pub created_at : String

pub record Database : Type 0 where
  pub users : List User
  pub profiles : List Profile
  pub permissions : List ProfilePermission
  pub user_profiles : List UserProfile
  pub user_companies : List UserCompany
  pub sessions : List Session
  pub companies : List Company
  pub settings : List Setting
  pub local_licenses : List LocalLicense
  pub audit_logs : List Entry
  pub sync_queue : List Entry
  pub app_logs : List AppLog
  -- the greatest number that AUTOINCREMENT gave to a user, to a profile and to a company
  pub last_user : ℕ
  pub last_profile : ℕ
  pub last_company : ℕ
