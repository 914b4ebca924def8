-- ===== src/Access/Sessions/Identity.antt =====
-- `build_auth_user` changes nothing (Access/Sessions.antt).
use tunnara.Prelude.{Option, none, some, String, ◌==◌}
use tunnara.Prelude.Int.{ℤ}
use tunnara.Database.Tables.{Database, User}
use tunnara.Database.Command.{Engine, pure, raise, select}
use tunnara.Database.Command.Rules.{
  Stable, Stable-bind, Stable-query, Stable-pure, Stable-if, Stable-raise,
}
use tunnara.Access.Rows.{sort_by, sort_texts, user_by_id}
use tunnara.Access.Sessions.{
  linked_names, linked_companies, permissions_of, auth_user_of, active_user, build_auth_user,
}

module _ {E : Type 0} (engine : Engine E) where
  pub select-Stable :
      {A : Type 0} {P : Database → Type 0} (x y z : String) (f : Database → A)
      → Stable P (select engine x y z f)
  select-Stable x y z f =
      Stable-bind _ _ (Stable-query engine x (λ _. tt))
        (λ _. Stable-bind _ _ (Stable-query engine y (λ _. tt)) (λ _. Stable-query engine z f))

  permissions_of-Stable : {P : Database → Type 0} (u : User) → Stable P (permissions_of engine u)
  unfolding permissions_of
  permissions_of-Stable u =
      Stable-if (u.master_user == 1) (pure _) _ (λ _. Stable-pure _) (λ _. select-Stable _ _ _ _)

  auth_user_of-Stable : {P : Database → Type 0} (u : User) → Stable P (auth_user_of engine u)
  unfolding auth_user_of
  auth_user_of-Stable u =
      Stable-bind _ _ (select-Stable _ _ _ (λ db. sort_texts (linked_names u.id db))) (λ n.
        Stable-bind _ _
          (select-Stable _ _ _ (λ db. sort_by (λ e. e.nome) (linked_companies u.id db)))
          (λ c. Stable-bind _ _ (permissions_of-Stable u) (λ k. Stable-pure _)))

  active_user-Stable : {P : Database → Type 0} (o : Option User) → Stable P (active_user engine o)
  unfolding active_user
  active_user-Stable none = Stable-raise _
  active_user-Stable (some u) =
      Stable-if (u.ativo == 0) (raise _) _ (λ _. Stable-raise _) (λ _. auth_user_of-Stable u)

  pub build_auth_user-Stable : {P : Database → Type 0} (i : ℤ) → Stable P (build_auth_user engine i)
  unfolding build_auth_user
  build_auth_user-Stable i =
      Stable-bind _ _ (Stable-query engine "Falha ao carregar usuário autenticado: " (user_by_id i))
        active_user-Stable
