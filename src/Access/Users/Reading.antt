-- ===== src/Access/Users/Reading.antt =====
-- What `user_get` changes (Access/Users.antt).
use tunnara.Prelude.{String, map, filter}
use tunnara.Prelude.Int.{ℤ, eqb_ℤ}
use tunnara.Database.Tables.{Database}
use tunnara.Database.Command.{Engine, lift}
use tunnara.Database.Command.Rules.{Stable, Stable-bind, Stable-query, Stable-lift, Stable-pure}
use tunnara.Access.Rows.{sort_ids, user_by_id}
use tunnara.Access.Sessions.{touch}
use tunnara.Access.Sessions.Acceptance.{require_session_by_token-Stable}
use tunnara.Access.Sessions.Identity.{select-Stable}
use tunnara.Access.Policy.{connect, ok_or}
use tunnara.Access.Policy.Master.{connect-Stable}
use tunnara.Access.Users.{user_get}

module _ {E : Type 0} (engine : Engine E) {P : Database → Type 0} where
  pub user_get-Stable :
      ((t n : String) (db : Database) → P db → P (touch t n db))
      → (token : String) (id : ℤ) → Stable P (user_get engine token id)
  unfolding user_get
  user_get-Stable k token id = Stable-bind (connect engine) _ (connect-Stable engine) (λ _.
      Stable-bind _ _ (require_session_by_token-Stable engine k token) (λ _.
        Stable-bind _ _ (Stable-query engine "Falha ao consultar usuário: " (user_by_id id)) (λ row.
          Stable-bind (lift (ok_or "Usuário não encontrado." row)) _ (Stable-lift _) (λ u.
            Stable-bind _ _
              (select-Stable engine _ _ _ (λ db.
                sort_ids
                  (map (λ l. l.perfil_id) (filter (λ l. eqb_ℤ l.usuario_id id) db.user_profiles))))
              (λ ps.
                Stable-bind _ _
                  (select-Stable engine _ _ _ (λ db. sort_ids (
                    map (λ l. l.empresa_id)
                      (filter (λ l. eqb_ℤ l.usuario_id id) db.user_companies))))
                  (λ cs. Stable-pure _))))))
