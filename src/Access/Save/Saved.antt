-- ===== src/Access/Save/Saved.antt =====
-- What a save that ends well did (Access/Save.antt).
use tunnara.Prelude.{◌≡◌, refl, ap, sym, ◌∙◌, Option, String}
use mathlib.Core.Path.{subst}
use tunnara.Prelude.Int.{ℤ}
use tunnara.Prelude.Text.{trim}
use tunnara.Value.{Fields}
use tunnara.Database.Tables.{Database}
use tunnara.Database.Command.{ok, Engine, State, lift}
use tunnara.Database.Command.Rules.{Stable, Stable-bind, bind-eq_ok, lift-eq_ok}
use tunnara.Database.Keeping.{
  Unlogged, accounts, accounts-Unlogged, Stable-eq, enqueue_sync-Stable, write_audit-Stable,
}
use tunnara.Access.Payload.{get_i64}
use tunnara.Access.Sessions.{touch}
use tunnara.Access.Policy.Master.{Authorised, time_of, administered-eq_ok}
use tunnara.Access.Users.{UserInput, user_input, user_get}
use tunnara.Access.Users.Reading.{user_get-Stable}
use tunnara.Access.Save.{check_user, write_user, write_links, report_user, user_save}
use tunnara.Access.Save.Checks.{Checked, check_user-eq_ok}
use tunnara.Access.Save.Outcome.{Written, write_user-Written}
use tunnara.Access.Save.Links.{relinked, write_links-eq_ok}

module _ {E : Type 0} (engine : Engine E) where
  -- `db'` has what the input says of the user `rid`, at a time that the clock showed; `db` passed
  -- the checks.
  pub record Saved (actor : ℤ) (id : Option ℤ) (input : UserInput) (db db' : Database)
      : Type 0 where
    pub now : String
    pub time : (e : E) × (now ≡ engine.to_rfc3339 (engine.utc_now e).0)
    pub rid : ℤ
    pub between : Database
    pub checked : Checked actor id input db
    pub written : Written engine id input now db rid between
    pub linked : accounts db' ≡ accounts (relinked rid input now between)

  report_user-Stable :
      {P : Database → Type 0} (u : Unlogged P) (id : Option ℤ) (actor rid : ℤ) (input : UserInput)
      → Stable P (report_user engine id actor rid input)
  unfolding report_user
  report_user-Stable u id actor rid input =
      Stable-bind _ _ (enqueue_sync-Stable engine u "usuarios" _ _ _)
        (λ _. write_audit-Stable engine u "usuarios" _ _ _)

  -- A save that ends well was asked for with the unexpired session of an active master and passed
  -- every check on the tables before it: the login is long enough and no other user's, the e-mail
  -- address is valid, the caller stays active, the profiles and companies of the input are there,
  -- and one of each is given where the user is no master. But for the logs and the sessions, the
  -- tables are then those before with the user's columns as the input has them, written into the
  -- user of the payload's number or into a new one, and with exactly the links of the input in
  -- place of those that the user had. The password's hash of an updated user stays where the input
  -- has no password; otherwise it is what the hash function made of the password, without the
  -- spaces around it, which has six bytes at least; and a new user has to have one.
  pub user_save-Saved :
      (token : String) (payload r : Fields) (s s' : State E)
      → user_save engine token payload s ≡ (ok r, s')
      → (input : UserInput) × (actor : ℤ) × (user_input engine payload ≡ ok input)
        × Authorised s.db token (time_of engine s) actor
        × Saved actor
            (get_i64 payload "id")
            input
            (touch (trim token) (time_of engine s) s.db)
            s'.db
  unfolding user_save
  user_save-Saved token payload r s s' h =
      let id = get_i64 payload "id" in
      let (actor, s₁, authorised, touched, k₁) = administered-eq_ok engine token _ s s' r h in
      let now = engine.to_rfc3339 (engine.utc_now s₁.env).0 in
      let s₂ : State E = record { db = s₁.db; env = (engine.utc_now s₁.env).1 } in
      let (input, s₃, h₃, k₃) = bind-eq_ok (lift (user_input engine payload)) _ s₂ r s' k₁ in
      let (read, same) = lift-eq_ok (user_input engine payload) input s₂ s₃ h₃ in
      let e₃ : s₃.db ≡ s₁.db = sym (ap (λ (t : State E). t.db) same) in
      let (u, s₄, h₄, k₄) = bind-eq_ok (check_user engine actor id input) _ s₃ r s' k₃ in
      let (checked, e₄) = check_user-eq_ok engine actor id input s₃ s₄ u h₄ in
      let (rid, s₅, h₅, k₅) =
        bind-eq_ok (write_user engine id input.password input now) _ s₄ r s' k₄ in
      let written = write_user-Written engine id input.password input now s₄ s₅ rid refl h₅ in
      let (v, s₆, h₆, k₆) = bind-eq_ok (write_links engine rid input now) _ s₅ r s' k₅ in
      let linked = write_links-eq_ok engine rid now input s₅ s₆ v h₆ in
      let (w, s₇, h₇, k₇) =
        bind-eq_ok (report_user engine id actor rid input) (λ _. user_get engine token rid) s₆ r s'
          k₆ in
      let e₇ =
        Stable-eq accounts (report_user engine id actor rid input) s₆ s₇ _
          (report_user-Stable (accounts-Unlogged s₆.db) id actor rid input) h₇ in
      let e₈ =
        Stable-eq accounts (user_get engine token rid) s₇ s' _
          (user_get-Stable engine (λ t n db p. p) token rid) k₇ in
      let e : s₃.db ≡ touch (trim token) (time_of engine s) s.db = e₃ ∙ touched in
      (
        input,
        actor,
        read,
        authorised,
        record {
          now = now;
          time = (s₁.env, refl);
          rid = rid;
          between = s₅.db;
          checked = subst (Checked actor id input) e checked;
          written = subst (λ db. Written engine id input now db rid s₅.db) (e₄ ∙ e) written;
          linked = e₈ ∙ e₇ ∙ ap accounts linked;
        },
      )
