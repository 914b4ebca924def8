-- ===== src/Access/Save/Deletion.antt =====
-- What `user_delete` leaves (Access/Save.antt).
use tunnara.Prelude.{
  ◌≡◌, ap, sym, ◌∙◌, Bool, true, false, not, String, some, filter, ◌==◌, ◌&&◌, leb, arith,
}
use mathlib.Core.Path.{subst}
use tunnara.Prelude.Int.{ℤ, eqb_ℤ}
use tunnara.Prelude.Members.{Memᴰ, mem_filter, filter_idem}
use tunnara.Prelude.Text.{trim}
use tunnara.Database.Tables.{Database, User}
use tunnara.Database.Command.{ok, Engine, State, pure, execute, query, update}
use tunnara.Database.Command.Rules.{
  Stable, Stable-execute, Stable-update, Stable-query, Stable-bind, Stable-pure, Stable-check,
  bind_at, bind-eq_ok, query-eq_ok, update-eq_ok, execute-eq_ok, raise_if-eq_ok, pure-eq_ok, snd_ok,
}
use tunnara.Database.{write_audit}
use tunnara.Database.Keeping.{Unlogged, unlogged, unlogged-Unlogged, Stable-eq, write_audit-Stable}
use tunnara.Access.Sessions.{touch}
use tunnara.Access.Policy.{connect, ensure_master}
use tunnara.Access.Policy.Master.{
  IsMaster, Authorised, Authorised-IsMaster, connect-Stable, ensure_master-eq_ok,
  ensure_master-Stable, time_of, administered-eq_ok,
}
use tunnara.Access.Statements.{delete_user, count_masters, master_flag}
use tunnara.Access.Save.{delete_as, remove_user, user_delete, refuse_if, clear_user}

-- The tables without the user of that number, its sessions and its links.
abbrev pub without : ℤ → Database → Database
without i db = record db {
  users = filter (λ u. not (eqb_ℤ u.id i)) db.users;
  sessions = filter (λ s. not (eqb_ℤ s.usuario_id i)) db.sessions;
  user_profiles = filter (λ l. not (eqb_ℤ l.usuario_id i)) db.user_profiles;
  user_companies = filter (λ l. not (eqb_ℤ l.usuario_id i)) db.user_companies;
}

abbrev pub HasMaster : Database → Type 0
HasMaster db = (i : ℤ) × IsMaster db i

module _ {E : Type 0} (engine : Engine E) where
  remove_user-eq_ok :
      (actor i : ℤ) (s s' : State E) (b : Bool)
      → remove_user engine actor i s ≡ (ok b, s')
      → (b ≡ true) × (unlogged s'.db ≡ unlogged (without i s.db))
  unfolding remove_user
  remove_user-eq_ok actor i s s' b h =
      let (_, s₁, h₁, k₁) =
        bind-eq_ok (update engine "Falha ao limpar sessões do usuário: " (clear_user i)) _ s b s'
          h in
      let (n, s₂, h₂, k₂) =
        bind-eq_ok (execute engine "Falha ao excluir usuário: " (delete_user i)) _ s₁ b s' k₁ in
      let (_, s₃, h₃, k₃) =
        bind-eq_ok (refuse_if (n == 0) "Usuário não encontrado.") _ s₂ b s' k₂ in
      let (_, h₃) = raise_if-eq_ok (n == 0) _ (pure tt) s₂ _ s₃ h₃ in
      let (_, e₃) = pure-eq_ok tt _ s₂ s₃ h₃ in
      let (_, s₄, h₄, k₄) =
        bind-eq_ok (write_audit engine "usuarios" "delete" (some i) _) (λ _. pure true) s₃ b s'
          k₃ in
      let (e, e₄) = pure-eq_ok true b s₄ s' k₄ in
      let d₁ = update-eq_ok engine _ (clear_user i) s s₁ _ h₁ in
      let d₂ = execute-eq_ok engine _ (delete_user i) s₁ s₂ n h₂ in
      let d₄ =
        Stable-eq unlogged (write_audit engine _ _ _ _) s₃ s₄ _
          (write_audit-Stable engine (unlogged-Unlogged s₃.db) _ _ _ _) h₄ in
      let same : unlogged s'.db ≡ unlogged s₂.db =
        sym (ap (λ (t : State E). unlogged t.db) e₄)
        ∙ d₄
        ∙ sym (ap (λ (t : State E). unlogged t.db) e₃) in
      let once = filter_idem (λ s. not (eqb_ℤ s.usuario_id i)) s.db.sessions in
      let twice : s₂.db ≡ without i (clear_user i s.db) = sym (snd_ok d₂) ∙ ap (without i) d₁ in
      (
        sym e,
        same
            ∙ ap unlogged twice
            ∙ ap (λ l. unlogged (record (without i s.db) { sessions = l })) once,
      )

  delete-Stable :
      (i : ℤ) (u : User)
      → eqb_ℤ u.id i ≡ false
      → Stable (λ db. Memᴰ u db.users) (execute engine "Falha ao excluir usuário: " (delete_user i))
  delete-Stable i u h = Stable-execute engine _ _ (λ db n db' m e.
      subst (λ (d : Database). Memᴰ u d.users) (snd_ok e)
        (mem_filter (λ u. not (eqb_ℤ u.id i)) db.users u m (ground arith)))

  unlogged_user : (u : User) → Unlogged (λ db. Memᴰ u db.users)
  unlogged_user u = record { audit = λ db l m. m; sync = λ db l m. m; app = λ db l m. m }

  -- Whatever a removal comes to, users of other numbers stay.
  remove_user-Stable :
      (actor i : ℤ) (u : User)
      → eqb_ℤ u.id i ≡ false
      → Stable (λ db. Memᴰ u db.users) (remove_user engine actor i)
  unfolding remove_user
  remove_user-Stable actor i u h =
      let c =
        Stable-update engine {P = λ db. Memᴰ u db.users} "Falha ao limpar sessões do usuário: "
          (clear_user i) (λ db m. m) in
      let d = delete-Stable i u h in
      let a = write_audit-Stable engine (unlogged_user u) "usuarios" "delete" (some i) in
      Stable-bind _ _ c (λ _. Stable-bind _ _ d (λ n.
        Stable-check (n == 0) "Usuário não encontrado." _
          (λ _. Stable-bind (write_audit engine _ _ _ _) _ (a _) (λ _. Stable-pure true))))

  -- A removal that ends well was asked for with the unexpired session of an active master other
  -- than the removed user; and but for the logs and the times of the sessions' last activity,
  -- the tables are then those before without that user, its sessions and its links.
  pub user_delete-eq_ok :
      (token : String) (i : ℤ) (s s' : State E) (b : Bool)
      → user_delete engine token i s ≡ (ok b, s')
      → (b ≡ true)
        × (actor : ℤ) × Authorised s.db token (time_of engine s) actor
        × (eqb_ℤ actor i ≡ false)
        × (unlogged s'.db ≡ unlogged (without i (touch (trim token) (time_of engine s) s.db)))
  unfolding user_delete delete_as
  user_delete-eq_ok token i s s' b h =
      let (actor, s₁, authorised, touched, h₁) =
        administered-eq_ok engine token (λ actor. delete_as engine actor i) s s' b h in
      let (_, s₂, g₁, h₂) = bind-eq_ok (refuse_if (eqb_ℤ actor i) _) _ s₁ b s' h₁ in
      let (other, g₁) = raise_if-eq_ok (eqb_ℤ actor i) _ (pure tt) s₁ _ s₂ g₁ in
      let (_, e₂) = pure-eq_ok tt _ s₁ s₂ g₁ in
      let (n, s₃, g₃, h₃) =
        bind-eq_ok (query engine "Falha ao validar usuários master: " count_masters) _ s₂ b s' h₂ in
      let (_, e₃) = query-eq_ok engine _ count_masters s₂ s₃ n g₃ in
      let (m, s₄, g₄, h₄) =
        bind-eq_ok (query engine "Falha ao validar usuário alvo: " (master_flag i)) _ s₃ b s' h₃ in
      let (_, e₄) = query-eq_ok engine _ (master_flag i) s₃ s₄ m g₄ in
      let (_, s₅, g₅, h₅) = bind-eq_ok (refuse_if (m == 1 && leb n 1) _) _ s₄ b s' h₄ in
      let (_, g₅) = raise_if-eq_ok (m == 1 && leb n 1) _ (pure tt) s₄ _ s₅ g₅ in
      let (_, e₅) = pure-eq_ok tt _ s₄ s₅ g₅ in
      let (e, removed) = remove_user-eq_ok actor i s₅ s' b h₅ in
      let same : s₅.db ≡ touch (trim token) (time_of engine s) s.db =
        sym (ap (λ (t : State E). t.db) e₅)
        ∙ e₄
        ∙ e₃
        ∙ sym (ap (λ (t : State E). t.db) e₂)
        ∙ touched in
      (e, actor, authorised, other, removed ∙ ap (λ db. unlogged (without i db)) same)

  -- What follows the guard of `user_delete`, for a user of another number.
  guarded-Stable :
      (actor i : ℤ) (u : User)
      → (eqb_ℤ actor i ≡ false → eqb_ℤ u.id i ≡ false)
      → Stable (λ db. Memᴰ u db.users) (delete_as engine actor i)
  unfolding delete_as
  guarded-Stable actor i u h = Stable-check (eqb_ℤ actor i) _ _ (λ e.
      Stable-bind _ _ (Stable-query engine _ _) (λ n.
        Stable-bind _ _ (Stable-query engine _ _)
          (λ m. Stable-check (m == 1 && leb n 1) _ _ (λ _. remove_user-Stable actor i u (h e)))))

  -- Whatever the removal comes to, also where it is refused or fails midway: tables that have an
  -- active master have one afterwards.
  pub user_delete-HasMaster :
      (token : String) (i : ℤ) (s : State E)
      → HasMaster s.db
      → HasMaster (user_delete engine token i s).1.db
  unfolding user_delete
  user_delete-HasMaster token i s h =
      bind_at (connect engine) _ s HasMaster ((connect-Stable engine {P = HasMaster}).at s h)
        λ _ s₁ _ h₁.
          bind_at (ensure_master engine token) (λ actor. delete_as engine actor i) s₁ HasMaster
            ((ensure_master-Stable engine touched token).at s₁ h₁)
            λ actor s₂ e _.
              let (authorised, same) = ensure_master-eq_ok engine token s₁ s₂ actor e in
              let m = Authorised-IsMaster authorised in
              let users : s₂.db.users ≡ s₁.db.users = ap (λ (db : Database). db.users) same in
              let other : eqb_ℤ actor i ≡ false → eqb_ℤ m.user.id i ≡ false =
                λ d. sym (ap (λ j. eqb_ℤ j i) m.same_id) ∙ d in
              let kept =
                (guarded-Stable actor i m.user other).at s₂
                  (subst (Memᴰ m.user) (sym users) m.known) in
              (
                actor,
                record {
                  user = m.user;
                  known = kept;
                  same_id = m.same_id;
                  is_master = m.is_master;
                  active = m.active;
                },
              )
    where
      touched : (t n : String) (db : Database) → HasMaster db → HasMaster (touch t n db)
      touched t n db (j, m) = (
        j,
        record {
          user = m.user;
          known = m.known;
          same_id = m.same_id;
          is_master = m.is_master;
          active = m.active;
        },
      )
