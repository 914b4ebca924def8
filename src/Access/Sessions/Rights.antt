-- ===== src/Access/Sessions/Rights.antt =====
-- What `build_auth_user` answers (Access/Sessions.antt).
use tunnara.Prelude.{
  ◌≡◌, refl, ap, sym, ◌∙◌, inl, inr, ◌↔◌, true, false, Bool-cases, Option, none, some, String, List,
  map, filter, if◌then◌else◌, ◌==◌, arith,
}
use mathlib.Core.Path.{subst}
use mathlib.Core.List.Memᴰ
use tunnara.Prelude.Int.{ℤ, eqb_ℤ, eqb_ℤ-eq, eqb_ℤ-refl}
use tunnara.Prelude.Members.{
  Memᴰ, find-eq_some, mem-filter, mem_filter, mem-map, mem_map, mem-concat_map, mem_concat_map,
}
use tunnara.Database.Tables.{Database, User, UserProfile, ProfilePermission}
use tunnara.Database.Command.{ok, Engine, State, pure, query, select}
use tunnara.Database.Command.Rules.{
  bind-eq_ok, query-eq_ok, pure-eq_ok, raise_if-eq_ok, branch_true, branch_false,
}
use tunnara.Access.Rows.Sorting.{mem-dedup-sort_texts}
use tunnara.Access.Rows.{sort_by, sort_texts, dedup, user_by_id}
use tunnara.Access.Sessions.{
  AuthUser, all_permission_keys, linked_names, linked_companies, linked_permissions, permissions_of,
  auth_user_of, active_user, build_auth_user,
}

module _ {E : Type 0} (engine : Engine E) where
  select-eq_ok :
      {A : Type 0} (x y z : String) (f : Database → A) (s s' : State E) (a : A)
      → select engine x y z f s ≡ (ok a, s')
      → (a ≡ f s.db) × (s'.db ≡ s.db)
  select-eq_ok x y z f s s' a h =
      let (_, s₁, h₁, k₁) = bind-eq_ok (query engine x (λ _. tt)) _ s a s' h in
      let (_, s₂, h₂, k₂) =
        bind-eq_ok (query engine y (λ _. tt)) (λ _. query engine z f) s₁ a s' k₁ in
      let (_, e₁) = query-eq_ok engine x (λ _. tt) s s₁ _ h₁ in
      let (_, e₂) = query-eq_ok engine y (λ _. tt) s₁ s₂ _ h₂ in
      let (q, e₃) = query-eq_ok engine z f s₂ s' a k₂ in (q ∙ ap f (e₂ ∙ e₁), e₃ ∙ e₂ ∙ e₁)

  permissions_of-eq_ok :
      (u : User) (s s' : State E) (keys : List String)
      → permissions_of engine u s ≡ (ok keys, s')
      → (keys ≡ (
          if u.master_user == 1
          then all_permission_keys
          else dedup (sort_texts (linked_permissions u.id s.db))))
        × (s'.db ≡ s.db)
  unfolding permissions_of
  permissions_of-eq_ok u s s' keys h = elim (Bool-cases (u.master_user == 1)) [
    | inl e ↦
        let (k, same) =
          pure-eq_ok all_permission_keys keys s s' (branch_true (pure all_permission_keys) _ e h) in
        (ground arith, sym (ap (λ (t : State E). t.db) same))
    | inr e ↦
        let (k, same) =
          select-eq_ok _ _ _ (λ db. dedup (sort_texts (linked_permissions u.id db))) s s' keys
            (branch_false (pure all_permission_keys) _ e h) in
        (ground arith, same)
  ]

  auth_user_of-eq_ok :
      (u : User) (s s' : State E) (a : AuthUser)
      → auth_user_of engine u s ≡ (ok a, s')
      → (a.id ≡ u.id)
        × (a.master_user ≡ (u.master_user == 1))
        × (a.permission_keys ≡ (
            if u.master_user == 1
            then all_permission_keys
            else dedup (sort_texts (linked_permissions u.id s.db))))
  unfolding auth_user_of
  auth_user_of-eq_ok u s s' a h =
      let names =
        select engine "Falha ao preparar perfis do usuário: "
          "Falha ao consultar perfis do usuário: " "Falha ao mapear perfis do usuário: "
          (λ db. sort_texts (linked_names u.id db)) in
      let companies =
        select engine "Falha ao preparar empresas do usuário: "
          "Falha ao consultar empresas do usuário: " "Falha ao mapear empresas do usuário: "
          (λ db. sort_by (λ e. e.nome) (linked_companies u.id db)) in
      let (n, s₁, h₁, k₁) = bind-eq_ok names _ s a s' h in
      let (_, e₁) = select-eq_ok _ _ _ (λ db. sort_texts (linked_names u.id db)) s s₁ n h₁ in
      let (c, s₂, h₂, k₂) = bind-eq_ok companies _ s₁ a s' k₁ in
      let (_, e₂) =
        select-eq_ok _ _ _ (λ db. sort_by (λ e. e.nome) (linked_companies u.id db)) s₁ s₂ c h₂ in
      let (keys, s₃, h₃, k₃) = bind-eq_ok (permissions_of engine u) _ s₂ a s' k₂ in
      let (held, _) = permissions_of-eq_ok u s₂ s₃ keys h₃ in
      let (answer, _) = pure-eq_ok _ a s₃ s' k₃ in
      (
        sym (ap (λ (x : AuthUser). x.id) answer),
        sym (ap (λ (x : AuthUser). x.master_user) answer),
        sym (ap (λ (x : AuthUser). x.permission_keys) answer)
            ∙ held
            ∙ ap
                (λ db.
                  if u.master_user == 1
                  then all_permission_keys
                  else dedup (sort_texts (linked_permissions u.id db)))
                (e₂ ∙ e₁),
      )

-- A profile that is linked to the user holds the permission.
abbrev pub Granted : Database → ℤ → String → Type 0
Granted db i key =
    (l : UserProfile) × (p : ProfilePermission) × Memᴰ l db.user_profiles
    × Memᴰ p db.permissions
    × (l.usuario_id ≡ i)
    × (p.perfil_id ≡ l.perfil_id)
    × (key ≡ p.permissao_chave)

mem-linked_permissions :
    (i : ℤ) (db : Database) (key : String) → Memᴰ key (linked_permissions i db) ↔ Granted db i key
mem-linked_permissions i db key = (there, back)
  where
    there : Memᴰ key (linked_permissions i db) → Granted db i key
    there m =
        let (l, ml, mk) =
          mem-concat_map
            (λ up.
              map (λ pp. pp.permissao_chave)
                (filter (λ pp. eqb_ℤ pp.perfil_id up.perfil_id) db.permissions))
            (filter (λ up. eqb_ℤ up.usuario_id i) db.user_profiles) key m in
        let (nl, el) = mem-filter (λ up. eqb_ℤ up.usuario_id i) db.user_profiles l ml in
        let (p, mp, ek) =
          mem-map (λ pp. pp.permissao_chave)
            (filter (λ pp. eqb_ℤ pp.perfil_id l.perfil_id) db.permissions) key mk in
        let (np, ep) = mem-filter (λ pp. eqb_ℤ pp.perfil_id l.perfil_id) db.permissions p mp in
        (l, p, nl, np, eqb_ℤ-eq l.usuario_id i el, eqb_ℤ-eq p.perfil_id l.perfil_id ep, ek)

    back : Granted db i key → Memᴰ key (linked_permissions i db)
    back (l, p, nl, np, el, ep, ek) =
        mem_concat_map
          (λ up.
            map (λ pp. pp.permissao_chave)
              (filter (λ pp. eqb_ℤ pp.perfil_id up.perfil_id) db.permissions))
          (filter (λ up. eqb_ℤ up.usuario_id i) db.user_profiles) l key
          (mem_filter (λ up. eqb_ℤ up.usuario_id i) db.user_profiles l nl
            (ap (λ j. eqb_ℤ j i) el ∙ eqb_ℤ-refl i))
          (Memᴰ.cast ek (
            mem_map (λ pp. pp.permissao_chave)
              (filter (λ pp. eqb_ℤ pp.perfil_id l.perfil_id) db.permissions) p
              (mem_filter (λ pp. eqb_ℤ pp.perfil_id l.perfil_id) db.permissions p np
                (ap (λ j. eqb_ℤ j l.perfil_id) ep ∙ eqb_ℤ-refl l.perfil_id))))

module _ {E : Type 0} (engine : Engine E) where
  active_user-eq_ok :
      (o : Option User) (s s' : State E) (a : AuthUser)
      → active_user engine o s ≡ (ok a, s')
      → (u : User) × (o ≡ some u)
        × ((u.ativo == 0) ≡ false)
        × (auth_user_of engine u s ≡ (ok a, s'))
  unfolding active_user
  active_user-eq_ok none s s' a h = cc
  active_user-eq_ok (some u) s s' a h =
      let (active, k) =
        raise_if-eq_ok (u.ativo == 0) "Usuário inativo." (auth_user_of engine u) s a s' h in
      (u, refl, active, k)

  -- The answer about a user is given only for an active one that is in the table. A master gets
  -- every permission of the catalogue; any other user gets exactly the permissions of the
  -- profiles that are linked to it.
  pub build_auth_user-Granted :
      (i : ℤ) (s s' : State E) (a : AuthUser)
      → build_auth_user engine i s ≡ (ok a, s')
      → (u : User) × Memᴰ u s.db.users
        × (u.id ≡ i)
        × ((u.ativo == 0) ≡ false)
        × (a.id ≡ i)
        × (a.master_user ≡ (u.master_user == 1))
        × (a.master_user ≡ true → a.permission_keys ≡ all_permission_keys)
        × (a.master_user ≡ false → (key : String) → Memᴰ key a.permission_keys ↔ Granted s.db i key)
  unfolding build_auth_user
  build_auth_user-Granted i s s' a h =
      let (o, s₁, h₁, k₁) =
        bind-eq_ok (query engine "Falha ao carregar usuário autenticado: " (user_by_id i))
          (active_user engine) s a s' h in
      let (found, same) = query-eq_ok engine _ (user_by_id i) s s₁ o h₁ in
      let (u, e, active, k) = active_user-eq_ok o s₁ s' a k₁ in
      let (listed, test) = find-eq_some (λ u. eqb_ℤ u.id i) s.db.users u (sym found ∙ e) in
      let id = eqb_ℤ-eq u.id i test in
      let (named, master, keys) = auth_user_of-eq_ok engine u s₁ s' a k in
      let held = dedup (sort_texts (linked_permissions u.id s₁.db)) in
      let whole : a.master_user ≡ true → a.permission_keys ≡ all_permission_keys =
        λ t. keys ∙ ap (λ b. if b then all_permission_keys else held) (sym master ∙ t) in
      let part : a.master_user ≡ false
          → a.permission_keys ≡ dedup (sort_texts (linked_permissions i s.db)) =
        λ t.
          keys
          ∙ ap (λ b. if b then all_permission_keys else held) (sym master ∙ t)
          ∙ ap (λ j. dedup (sort_texts (linked_permissions j s₁.db))) id
          ∙ ap (λ db. dedup (sort_texts (linked_permissions i db))) same in
      (
        u,
        listed,
        id,
        active,
        named ∙ id,
        master,
        whole,
        λ t key.
            let (in_list, in_keys) = mem-dedup-sort_texts key (linked_permissions i s.db) in
            let (granted, linked) = mem-linked_permissions i s.db key in
            (
              λ m. granted (in_list (subst (Memᴰ key) (part t) m)),
              λ g. subst (Memᴰ key) (sym (part t)) (in_keys (linked g)),
            ),
      )
