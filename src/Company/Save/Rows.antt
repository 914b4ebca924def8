-- ===== src/Company/Save/Rows.antt =====
-- What `company_save` is to write and to answer, and that its parts (Company/Save.antt) do.
use tunnara.Prelude.{
  ◌≡◌, refl, ap, suc, Bool-cases, inl, inr, Option, none, some, String, List, [], ◌∷◌, ◌++◌, map,
  if◌then◌else◌,
}
use tunnara.Prelude.Int.{ℤ, pos, eqb_ℤ, eqb_ℤ-eq}
use tunnara.Value.{Value, Fields, string, object, end, field}
use tunnara.Database.Tables.{Database, Company, Entry}
use tunnara.Database.Keeping.{entry_of}
use tunnara.Access.Policy.{int_value}
use tunnara.Access.Profiles.{text_value}
use tunnara.Company.Payload.{CompanyInput}
use tunnara.Company.Save.{company_fields, write_company, company_action}

-- The row of a company with what the input has.
abbrev pub as_given : CompanyInput → String → String → ℤ → Company
as_given input now created_at id = record {
  id = id;
  nome = input.nome;
  nome_fantasia = input.nome_fantasia;
  documento = some input.documento;
  inscricao_estadual = input.inscricao_estadual;
  inscricao_municipal = input.inscricao_municipal;
  telefone = input.telefone;
  email = input.email;
  responsavel_nome = input.responsavel_nome;
  responsavel_telefone = input.responsavel_telefone;
  cep = input.cep;
  endereco = input.endereco;
  numero = input.numero;
  complemento = input.complemento;
  bairro = input.bairro;
  cidade = input.cidade;
  estado = input.estado;
  observacoes = input.observacoes;
  ativo = input.ativo;
  created_at = created_at;
  updated_at = now;
}

-- The companies once the input was written, and the number of the row: the company of the
-- payload's number keeps the time of its creation, and every other is as it was.
abbrev pub Written : Option ℤ → CompanyInput → String → Database → ℤ → Database → Type 0
Written (some i) input now db rid db' =
    (rid ≡ i)
    × (db' ≡ record db {
      companies =
          map (λ c. if eqb_ℤ c.id i then as_given input now c.created_at i else c) db.companies;
    })
Written none input now db rid db' =
    (rid ≡ pos (suc db.last_company))
    × (db' ≡ record db {
      companies = db.companies ++ (as_given input now now (pos (suc db.last_company)) ∷ []);
      last_company = suc db.last_company;
    })

-- The answer: a company's columns by their names, in the order of the query.
pub columns : Company → List (String × Value)
columns c =
    ("id", int_value c.id)
    ∷ ("nome", string c.nome)
    ∷ ("nome_fantasia", text_value c.nome_fantasia)
    ∷ ("documento", text_value c.documento)
    ∷ ("inscricao_estadual", text_value c.inscricao_estadual)
    ∷ ("inscricao_municipal", text_value c.inscricao_municipal)
    ∷ ("telefone", text_value c.telefone)
    ∷ ("email", text_value c.email)
    ∷ ("responsavel_nome", text_value c.responsavel_nome)
    ∷ ("responsavel_telefone", text_value c.responsavel_telefone)
    ∷ ("cep", text_value c.cep)
    ∷ ("endereco", text_value c.endereco)
    ∷ ("numero", text_value c.numero)
    ∷ ("complemento", text_value c.complemento)
    ∷ ("bairro", text_value c.bairro)
    ∷ ("cidade", text_value c.cidade)
    ∷ ("estado", text_value c.estado)
    ∷ ("observacoes", text_value c.observacoes)
    ∷ ("ativo", int_value (pos c.ativo))
    ∷ ("created_at", string c.created_at)
    ∷ ("updated_at", string c.updated_at)
    ∷ []

pub fields_of : List (String × Value) → Fields
fields_of [] = end
fields_of ((name, value) ∷ rest) = field name value (fields_of rest)

pub company_fields-columns : (c : Company) → company_fields c ≡ fields_of (columns c)
unfolding columns fields_of
company_fields-columns c = refl

-- An entry in the audit log and one in the queue of synchronisation, which say whether the payload
-- had a number.
abbrev pub entry : Option ℤ → ℤ → Fields → String → Entry
entry id rid r time = record {
  entity_name = "empresas";
  action_name = elim id [ none ↦ "create" | some i ↦ "update" ];
  record_id = some rid;
  payload_json = object r;
  created_at = time;
}

abbrev pub reported_in : Option ℤ → ℤ → Fields → String → String → Database → Database
reported_in id rid r audit_time sync_time db = record db {
  audit_logs = db.audit_logs ++ (entry id rid r audit_time ∷ []);
  sync_queue = db.sync_queue ++ (entry id rid r sync_time ∷ []);
}

pub entry_of-entry :
    (id : Option ℤ) (rid : ℤ) (r : Fields) (time : String)
    → entry_of "empresas" (company_action id) (some rid) (object r) time ≡ entry id rid r time
entry_of-entry none rid r time = refl
entry_of-entry (some i) rid r time = refl

-- A row of the table is rewritten with its own number.
pub rewritten :
    (i : ℤ) (input : CompanyInput) (now : String) (cs : List Company)
    → map (λ c. if eqb_ℤ c.id i then write_company input now c else c) cs
      ≡ map (λ c. if eqb_ℤ c.id i then as_given input now c.created_at i else c) cs
rewritten i input now [] = refl
rewritten i input now (c ∷ cs) = elim (Bool-cases (eqb_ℤ c.id i)) [
  | inl e ↦
      let same = eqb_ℤ-eq c.id i e in
      rw e (λ t. as_given input now c.created_at (same t) ∷ rewritten i input now cs t)
  | inr e ↦ rw e (ap (λ x. c ∷ x) (rewritten i input now cs))
]
