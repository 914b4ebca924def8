-- ===== src/Company/Tests.antt =====
-- Runs of the commands on companies.
use tunnara.Prelude.{
  ◌≡◌, refl, ◌↔◌, inl, inr, true, false, not, none, some, String, List, [], ◌∷◌, map, arith, code,
  ◌||◌, ◌==◌,
}
use tunnara.Prelude.Int.{pos, eqb_ℤ, eqb_ℤ-refl}
use tunnara.Prelude.Members.{mem-cons}
use tunnara.Prelude.Text.{filter_chars, is_ascii_alphanumeric, trim, contains, show_ℕ, show_ℤ}
use tunnara.Value.{Fields, string, end, field}
use tunnara.Database.Command.{Result, ok, err, execute}
use tunnara.Database.{open_connection, write_audit, enqueue_sync}
use tunnara.Access.Samples.{clock, start, tables}
use tunnara.Company.Document.{
  validate_company_document, normalize_document_key, only_digits, is_valid_cpf, is_valid_cnpj,
  cpf_digits, cnpj_digits, check_digit, normalize_optional_registration, registration,
  normalize_upper_uf,
}
use tunnara.Company.Document.Rule.{Admissible, validate_company_document-Admissible}
use tunnara.Company.Limiter.{LookupRuntime, provider_can_run, can_run, admit, purge_old_requests}
use tunnara.Company.Limiter.Windows.{Request, attempt, cool, answers, verdicts}
use tunnara.Company.Limiter.Counter.{answers-verdicts}
use tunnara.Company.Payload.{
  CompanyInput, get_id, company_input, get_string, get_bool, checked, filled, bad_email,
}
use tunnara.Access.Payload.{validate_email}
use tunnara.Company.Save.{
  company_save, store_unless_taken, store_company, write_input, report_company,
}
use tunnara.Company.Save.Saved.{Saved, company_save-Saved}
use tunnara.Company.Save.Placing.{Distinct, KeysAgree}
use tunnara.Company.Save.Distinct.{company_save-Distinct}

-- Two keys, of which one is paused.
abbrev requests : List Request
requests =
    attempt "a" 100 1
    ∷ attempt "a" 101 1
    ∷ attempt "b" 101 1
    ∷ cool "b" 102 90
    ∷ attempt "b" 170 1
    ∷ attempt "a" 171 1
    ∷ []

abbrev idle : LookupRuntime
idle = record { providers = []; cache = [] }

answers-verdicts_example : answers requests idle ≡ verdicts requests (λ key. none)
answers-verdicts_example = answers-verdicts requests 100 idle (omega arith) refl

-- At the edge of a window, twice the limit is admitted within two seconds.
edge_run :
    answers
      (attempt "a" 0 2
        ∷ attempt "a" 59 2
        ∷ attempt "a" 59 2
        ∷ attempt "a" 60 2
        ∷ attempt "a" 60 2
        ∷ [])
      idle
    ≡ ok tt ∷ ok tt ∷ err "Limite por minuto atingido (2 req/min)." ∷ ok tt ∷ ok tt ∷ []
unfolding provider_can_run can_run admit purge_old_requests show_ℕ
edge_run = refl

validate_company_document-Admissible_example :
    validate_company_document (λ s. s) "11.222.333/0001-81" ≡ true
    ↔ Admissible (normalize_document_key (λ s. s) "11.222.333/0001-81")
validate_company_document-Admissible_example =
    validate_company_document-Admissible (λ s. s) "11.222.333/0001-81"

-- The second document has a wrong check digit.
document_runs :
    map
      (validate_company_document (λ s. s))
      ("11.222.333/0001-81" ∷ "11.222.333/0001-82" ∷ "529.982.247-25" ∷ "11111111111" ∷ "AB-1" ∷ [])
    ≡ true ∷ false ∷ true ∷ false ∷ true ∷ []
unfolding validate_company_document normalize_document_key only_digits filter_chars is_valid_cpf
    is_valid_cnpj cpf_digits cnpj_digits check_digit
document_runs = refl

-- The letters of a registration are lost where it has a digit.
registration_run :
    normalize_optional_registration (λ s. s) (some "P-01100424.3/002") ≡ some "011004243002"
unfolding normalize_optional_registration registration only_digits filter_chars trim
registration_run = refl

abbrev bakery : Fields
bakery = field "nome" (string " Padaria ") (
    field "documento" (string "11.222.333/0001-81")
      (field "estado" (string "SP") (field "cep" (string "01310-100") end)))

abbrev answered : Result Fields → Fields
answered (ok r) = r
answered (err m) = end

company_save-Saved_example :
    (input : CompanyInput) × (company_input (λ s. s) bakery ≡ ok input)
    × Saved clock
        (get_id bakery)
        input
        tables
        (company_save clock bakery start).1.db
        (answered (company_save clock bakery start).0)
unfolding company_save execute open_connection get_id company_input get_string get_bool checked
    filled bad_email validate_email contains store_unless_taken store_company write_input
    report_company write_audit enqueue_sync trim filter_chars validate_company_document
    normalize_document_key only_digits is_valid_cpf is_valid_cnpj cpf_digits cnpj_digits check_digit
    normalize_optional_registration registration normalize_upper_uf show_ℕ show_ℤ
company_save-Saved_example =
    company_save-Saved clock bakery (answered (company_save clock bakery start).0) start
      (company_save clock bakery start).1 refl

-- The tests of the letters and digits leave none of the separators.
letters_kept :
    (s : String)
    → let kept = filter_chars is_ascii_alphanumeric s in
      filter_chars (λ c. not (code c == b'.' || code c == b'-' || code c == b'/')) kept ≡ kept
unfolding filter_chars
letters_kept String.[] = refl
letters_kept (String.◌∷◌ c s) = ground (arith, letters_kept s)

clock-KeysAgree : KeysAgree clock
unfolding normalize_document_key
clock-KeysAgree value = letters_kept value

tables-Distinct : Distinct clock tables
tables-Distinct c d m n differ same = elim (mem-cons m) [
  | inr k ↦ elim k [ ]
  | inl e ↦ elim (mem-cons n) [
    | inr k ↦ elim k [ ]
    | inl f ↦
        let r = eqb_ℤ-refl (pos 1) in let g : eqb_ℤ c.id d.id ≡ eqb_ℤ (pos 1) (pos 1) = cc in cc
  ]
]

company_save-Distinct_example : Distinct clock (company_save clock bakery start).1.db
company_save-Distinct_example =
    company_save-Distinct clock bakery start clock-KeysAgree tables-Distinct
