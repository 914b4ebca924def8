-- ===== src/Company/Answers.antt =====
-- The answers of the services that the CNPJ lookups ask:
-- apps/console/src-tauri/src/commands/companies.rs. `serde_json::from_str` and `to_uppercase`
-- are parameters.
use tunnara.Prelude.{
  Bool, true, false, not, ◌||◌, ◌&&◌, Option, none, some, String, List, [], ◌∷◌, if◌then◌else◌,
  str_eq, and_then, map_option, unwrap_or, or_else,
}
use tunnara.Prelude.Int.{pos, eqb_ℤ}
use tunnara.Prelude.Text.{◌++◌, trim, eq_ignore_ascii_case}
use tunnara.Value.{
  Value, Fields, bool, number, string, array, object, end, field, get, get_in, to_list,
}
use tunnara.Database.Command.{Result, ok, err}
use tunnara.Company.Document.{non_empty}

unfoldable pub optional_json_string : Option Value → Option String
optional_json_string (some (string text)) = non_empty (trim text)
optional_json_string (some (number n)) = some n.printed
optional_json_string _ = none

unfoldable pub optional_json_bool : Option Value → Option Bool
optional_json_bool (some (bool flag)) = some flag
optional_json_bool (some (number n)) = some (not (eqb_ℤ (unwrap_or n.as_i64 (pos 0)) (pos 0)))
optional_json_bool (some (string text)) =
    let t = trim text in
    some (
      str_eq t "1"
      || str_eq t "true"
      || str_eq t "TRUE"
      || str_eq t "sim"
      || str_eq t "SIM"
      || str_eq t "ativo"
      || str_eq t "ATIVO")
optional_json_bool _ = none

-- `Value::as_object`, `as_array` and `as_str`
abbrev pub as_object : Value → Option Fields
as_object (object map) = some map
as_object _ = none

abbrev pub as_array : Value → Option (List Value)
as_array (array items) = some (to_list items)
as_array _ = none

abbrev pub as_str : Value → Option String
as_str (string text) = some text
as_str _ = none

-- `optional_json_string(map.get(key)).unwrap_or_default()`
abbrev pub text_at : Fields → String → String
unfolding optional_json_string
text_at map key = unwrap_or (optional_json_string (get map key)) ""

-- The map to which each text is added under its key; the keys are different.
abbrev pub texts_of : List (String × String) → Fields
texts_of [] = end
texts_of ((key, text) ∷ rest) = field key (string text) (texts_of rest)

abbrev pub inscription : Value → Option String
unfolding optional_json_string
inscription item = optional_json_string (get_in (some item) "inscricao_estadual")

-- `find_map`
abbrev pub first_inscription : List Value → Option String
unfolding inscription
first_inscription [] = none
first_inscription (item ∷ list) = or_else (inscription item) (first_inscription list)

module _ (to_uppercase : String → String) where
  abbrev pub state_sigla : Value → String
  state_sigla item =
      unwrap_or
        (map_option to_uppercase (and_then (get_in (get_in (some item) "estado") "sigla") as_str))
        ""

  -- The inscription of the first item of that state that is not inactive.
  unfoldable pub inscription_in : String → List Value → Option String
  unfolding optional_json_bool inscription
  inscription_in target_uf [] = none
  inscription_in target_uf (item ∷ list) =
      let rest = inscription_in target_uf list in
      if str_eq (state_sigla item) target_uf
        && unwrap_or (optional_json_bool (get_in (some item) "ativo")) true
      then inscription item
      else rest

  abbrev pub inscription_among : Option String → Option (List Value) → Option String
  unfolding inscription_in first_inscription
  inscription_among current_uf none = none
  inscription_among none (some list) = first_inscription list
  inscription_among (some target_uf) (some list) =
      or_else (inscription_in target_uf list) (first_inscription list)

  abbrev pub current_uf_of : Option String → Fields → Option String
  unfolding optional_json_string
  current_uf_of uf_hint estabelecimento =
      or_else (and_then (map_option (λ value. to_uppercase (trim value)) uf_hint) non_empty) (
        map_option to_uppercase
          (optional_json_string (get_in (get estabelecimento "estado") "sigla")))

  unfoldable pub publica_ws_fields : Fields → Fields → Option String → Fields
  unfolding inscription_among current_uf_of text_at optional_json_string
  publica_ws_fields root estabelecimento uf_hint =
      let current_uf = current_uf_of uf_hint estabelecimento in
      let list = and_then (get estabelecimento "inscricoes_estaduais") as_array in
      texts_of (
        ("nome", text_at root "razao_social")
        ∷ ("nome_fantasia", text_at estabelecimento "nome_fantasia")
        ∷ (
          "documento",
          text_at root "cnpj_raiz"
              ++ text_at root "cnpj_ordem"
              ++ text_at root "cnpj_digito_verificador",
        )
        ∷ ("inscricao_estadual", unwrap_or (inscription_among current_uf list) "ISENTO")
        ∷ ("telefone", trim (text_at estabelecimento "ddd1" ++ text_at estabelecimento "telefone1"))
        ∷ ("email", text_at estabelecimento "email")
        ∷ ("cep", text_at estabelecimento "cep")
        ∷ ("endereco", text_at estabelecimento "logradouro")
        ∷ ("numero", text_at estabelecimento "numero")
        ∷ ("complemento", text_at estabelecimento "complemento")
        ∷ ("bairro", text_at estabelecimento "bairro")
        ∷ (
          "cidade",
          unwrap_or (optional_json_string (get_in (get estabelecimento "cidade") "nome")) "",
        )
        ∷ ("estado", unwrap_or current_uf "")
        ∷ ("inscricao_municipal", text_at estabelecimento "inscricao_municipal")
        ∷ ("source", "publica_cnpj_ws")
        ∷ [])

  abbrev pub publica_ws_root : Option String → Fields → Result Fields
  unfolding publica_ws_fields
  publica_ws_root uf_hint root = elim (and_then (get root "estabelecimento") as_object) [
    | none ↦ err "Resposta do CNPJ.ws sem estabelecimento."
    | some estabelecimento ↦ ok (publica_ws_fields root estabelecimento uf_hint)
  ]

  abbrev pub publica_ws_value : Option String → Result Value → Result Fields
  unfolding publica_ws_root
  publica_ws_value uf_hint (err e) = err ("Falha ao interpretar resposta do CNPJ.ws: " ++ e)
  publica_ws_value uf_hint (ok parsed) = elim (as_object parsed) [
    | none ↦ err "Resposta inválida do CNPJ.ws."
    | some root ↦ publica_ws_root uf_hint root
  ]

  unfoldable pub receita_ws_fields : Fields → Fields
  unfolding text_at optional_json_string
  receita_ws_fields root = texts_of (
      ("nome", text_at root "nome")
      ∷ ("nome_fantasia", text_at root "fantasia")
      ∷ ("documento", text_at root "cnpj")
      ∷ ("inscricao_estadual", unwrap_or (optional_json_string (get root "ie")) "ISENTO")
      ∷ ("telefone", text_at root "telefone")
      ∷ ("email", text_at root "email")
      ∷ ("cep", text_at root "cep")
      ∷ ("endereco", text_at root "logradouro")
      ∷ ("numero", text_at root "numero")
      ∷ ("complemento", text_at root "complemento")
      ∷ ("bairro", text_at root "bairro")
      ∷ ("cidade", text_at root "municipio")
      ∷ ("estado", to_uppercase (text_at root "uf"))
      ∷ ("source", "receita_ws")
      ∷ [])

  abbrev pub is_error : Option String → Bool
  unfolding eq_ignore_ascii_case
  is_error none = false
  is_error (some status) = eq_ignore_ascii_case status "ERROR"

  abbrev pub receita_ws_value : Result Value → Result Fields
  unfolding receita_ws_fields is_error optional_json_string
  receita_ws_value (err e) = err ("Falha ao interpretar resposta do ReceitaWS: " ++ e)
  receita_ws_value (ok parsed) = elim (as_object parsed) [
    | none ↦ err "Resposta inválida do ReceitaWS."
    | some root ↦
        if is_error (optional_json_string (get root "status"))
        then err (unwrap_or (optional_json_string (get root "message")) "ReceitaWS retornou erro.")
        else ok (receita_ws_fields root)
  ]

  -- `serde_json::from_str`, with the error's text
  module _ (from_str : String → Result Value) where
    unfoldable pub parse_publica_ws_response : String → Option String → Result Fields
    unfolding publica_ws_value
    parse_publica_ws_response body uf_hint = publica_ws_value uf_hint (from_str body)

    unfoldable pub parse_receita_ws_response : String → Result Fields
    unfolding receita_ws_value
    parse_receita_ws_response body = receita_ws_value (from_str body)
