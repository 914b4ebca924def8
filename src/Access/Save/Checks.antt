-- ===== src/Access/Save/Checks.antt =====
-- What `user_save` has checked when it starts to write (Access/Save.antt).
use tunnara.Prelude.{
  ℕ, ◌≤◌, ◌≡◌, ◌≢◌, refl, ap, sym, ◌∙◌, Bool, true, false, not, Option, none, some, String, List,
  [], ◌∷◌, ◌==◌, ◌&&◌, ltb, length, all, any, arith,
}
use mathlib.Core.Path.{subst}
use tunnara.Prelude.Members.{Memᴰ, mem_of_any, not_any}
use tunnara.Prelude.Int.{ℤ, eqb_ℤ, eqb_ℤ-eq, eqb_ℤ-refl}
use tunnara.Prelude.Text.{eq_ignore_ascii_case}
use Prim.Native.String as Native
use tunnara.Database.Tables.{Database, User, Profile, Company}
use tunnara.Database.Command.{ok, Engine, State, Exec, pure, for_each, query}
use tunnara.Database.Command.Rules.{bind-eq_ok, query-eq_ok, raise_if-eq_ok, pure-eq_ok}
use tunnara.Access.Rows.{has_profile, has_company}
use tunnara.Access.Statements.{login_taken}
use tunnara.Access.Payload.{validate_email}
use tunnara.Access.Policy.{load_login_min_length}
use tunnara.Access.Policy.Bounds.{Policy, load_login_min_length-eq_ok}
use tunnara.Access.Users.{UserInput, as_usize}
use tunnara.Access.Save.{
  switches_off, bad_email, refuse_if, check_profile_id, check_company_id, check_user,
}

pub record Checked (actor : ℤ) (id : Option ℤ) (input : UserInput) (db : Database) : Type 0 where
  pub least : ℤ
  pub policy : Policy db least
  pub long_enough : as_usize least ≤ Native.len input.login
  pub good_email : (e : String) → input.email ≡ some e → validate_email e ≡ true
  pub stays_on : id ≡ some actor → input.ativo ≢ 0
  pub free_login :
      (u : User)
      → Memᴰ u db.users
      → eq_ignore_ascii_case u.login input.login ≡ true
      → id ≡ some u.id
  pub some_profile : input.master_user ≢ 1 → input.profile_ids ≢ []
  pub some_company : input.master_user ≢ 1 → input.empresa_ids ≢ []
  pub profiles :
      (p : ℤ) → Memᴰ p input.profile_ids → (q : Profile) × Memᴰ q db.profiles × (q.id ≡ p)
  pub companies :
      (c : ℤ) → Memᴰ c input.empresa_ids → (q : Company) × Memᴰ q db.companies × (q.id ≡ c)

-- What the tests of the code come to.
long_login : (n : ℕ) (login : String) → ltb (Native.len login) n ≡ false → n ≤ Native.len login
long_login n login h = ground arith

not-eq_false : (b : Bool) → not b ≡ false → b ≡ true
not-eq_false true h = refl
not-eq_false false h = cc

and-eq_false : (a b : Bool) → (a && b) ≡ false → a ≡ true → b ≡ false
and-eq_false true b h e = h
and-eq_false false b h e = cc

good_address :
    (email : Option String) (e : String)
    → bad_email email ≡ false
    → email ≡ some e
    → validate_email e ≡ true
unfolding validate_email
good_address none e h k = cc
good_address (some x) e h k =
    let same : x ≡ e = cc in sym (ap validate_email same) ∙ not-eq_false (validate_email x) h

switched_on :
    (id : Option ℤ) (actor : ℤ) (input : UserInput)
    → switches_off id actor input ≡ false
    → id ≡ some actor
    → input.ativo ≢ 0
switched_on none actor input h k z = cc
switched_on (some i) actor input h k z =
    let same : i ≡ actor = ground arith in
    let own : eqb_ℤ i actor ≡ true = ap (λ j. eqb_ℤ j actor) same ∙ eqb_ℤ-refl actor in
    let on = and-eq_false (eqb_ℤ i actor) (input.ativo == 0) h own in
    let off : (input.ativo == 0) ≡ true = ap (λ n. n == 0) z in cc (on, off)

own_login :
    (id : Option ℤ) (login : String) (db : Database) (u : User)
    → login_taken login id db ≡ false
    → Memᴰ u db.users
    → eq_ignore_ascii_case u.login login ≡ true
    → id ≡ some u.id
own_login none login db u h m e = let k = not_any _ db.users u h m in absurd (ground arith)
own_login (some i) login db u h m e =
    let k =
      not_any (λ u. eq_ignore_ascii_case u.login login && not (eqb_ℤ u.id i)) db.users u h m in
    ap some (
      sym (
        eqb_ℤ-eq u.id i (
          not-eq_false (eqb_ℤ u.id i)
            (and-eq_false (eq_ignore_ascii_case u.login login) (not (eqb_ℤ u.id i)) k e))))

not_empty :
    (master : ℕ) (ids : List ℤ)
    → (not (master == 1) && length ids == 0) ≡ false
    → master ≢ 1
    → ids ≢ []
not_empty master [] h k e = k (ground arith)
not_empty master (i ∷ ids) h k e = cc

each_listed :
    {A : Type 0} (key : A → ℤ) (rows : List A) (ids : List ℤ) (i : ℤ)
    → all (λ j. any (λ r. eqb_ℤ (key r) j) rows) ids ≡ true
    → Memᴰ i ids
    → (r : A) × Memᴰ r rows × (key r ≡ i)
each_listed key rows [] i h m = elim m [ ]
each_listed key rows (j ∷ js) i h (Memᴰ.head e) =
    let (r, there, same) = mem_of_any (λ r. eqb_ℤ (key r) j) rows (ground arith) in
    (r, there, eqb_ℤ-eq (key r) j same ∙ sym e)
each_listed key rows (j ∷ js) i h (Memᴰ.tail m) = each_listed key rows js i (ground arith) m

module _ {E : Type 0} (engine : Engine E) where
  -- A check that did not fail.
  pub refuse_if-eq_ok :
      (b : Bool) (x : String) (s s' : State E) (u : Unit {0})
      → refuse_if b x s ≡ (ok u, s')
      → (b ≡ false) × (s'.db ≡ s.db)
  refuse_if-eq_ok b x s s' u h =
      let (e, k) = raise_if-eq_ok b x (pure tt) s u s' h in
      let (_, same) = pure-eq_ok tt u s s' k in (e, sym (ap (λ (t : State E). t.db) same))

  -- A loop of checks that each leave the tables.
  for_each-all :
      {A : Type 0} (test : A → Database → Bool) (f : A → Exec E (Unit {0}))
      → ((a : A) (s s' : State E) (u : Unit {0})
          → f a s ≡ (ok u, s')
          → (test a s.db ≡ true) × (s'.db ≡ s.db))
      → (l : List A) (s s' : State E) (u : Unit {0}) → for_each l f s ≡ (ok u, s')
      → (all (λ a. test a s.db) l ≡ true) × (s'.db ≡ s.db)
  for_each-all test f each [] s s' u h =
      let (_, same) = pure-eq_ok tt u s s' h in (refl, sym (ap (λ (t : State E). t.db) same))
  for_each-all test f each (a ∷ l) s s' u h =
      let (v, s₁, h₁, k₁) = bind-eq_ok (f a) (λ _. for_each l f) s u s' h in
      let (e, same) = each a s s₁ v h₁ in
      let (rest, same') = for_each-all test f each l s₁ s' u k₁ in
      let rest' : all (λ b. test b s.db) l ≡ true =
        subst (λ db. all (λ b. test b db) l ≡ true) same rest in
      (ground arith, same' ∙ same)

  check_profile_id-eq_ok :
      (p : ℤ) (s s' : State E) (u : Unit {0})
      → check_profile_id engine p s ≡ (ok u, s')
      → (has_profile p s.db ≡ true) × (s'.db ≡ s.db)
  unfolding check_profile_id
  check_profile_id-eq_ok p s s' u h =
      let (b, s₁, h₁, k₁) =
        bind-eq_ok (query engine "Falha ao validar perfil do usuário: " (has_profile p)) _ s u s'
          h in
      let (found, same) = query-eq_ok engine _ (has_profile p) s s₁ b h₁ in
      let (e, same') = refuse_if-eq_ok (not b) _ s₁ s' u k₁ in (ground arith, same' ∙ same)

  check_company_id-eq_ok :
      (c : ℤ) (s s' : State E) (u : Unit {0})
      → check_company_id engine c s ≡ (ok u, s')
      → (has_company c s.db ≡ true) × (s'.db ≡ s.db)
  unfolding check_company_id
  check_company_id-eq_ok c s s' u h =
      let (b, s₁, h₁, k₁) =
        bind-eq_ok (query engine "Falha ao validar empresa do usuário: " (has_company c)) _ s u s'
          h in
      let (found, same) = query-eq_ok engine _ (has_company c) s s₁ b h₁ in
      let (e, same') = refuse_if-eq_ok (not b) _ s₁ s' u k₁ in (ground arith, same' ∙ same)

  pub check_user-eq_ok :
      (actor : ℤ) (id : Option ℤ) (input : UserInput) (s s' : State E) (u : Unit {0})
      → check_user engine actor id input s ≡ (ok u, s')
      → Checked actor id input s.db × (s'.db ≡ s.db)
  unfolding check_user
  check_user-eq_ok actor id input s s' u h =
      let (least, s₁, h₁, k₁) = bind-eq_ok (load_login_min_length engine) _ s u s' h in
      let (policy, d₁) = load_login_min_length-eq_ok engine s s₁ least h₁ in
      let (_, s₂, h₂, k₂) =
        bind-eq_ok (refuse_if (ltb (Native.len input.login) (as_usize least)) _) _ s₁ u s' k₁ in
      let (long, d₂) =
        refuse_if-eq_ok (ltb (Native.len input.login) (as_usize least)) _ s₁ s₂ _ h₂ in
      let (_, s₃, h₃, k₃) = bind-eq_ok (refuse_if (bad_email input.email) _) _ s₂ u s' k₂ in
      let (email, d₃) = refuse_if-eq_ok (bad_email input.email) _ s₂ s₃ _ h₃ in
      let (_, s₄, h₄, k₄) = bind-eq_ok (refuse_if (switches_off id actor input) _) _ s₃ u s' k₃ in
      let (stays, d₄) = refuse_if-eq_ok (switches_off id actor input) _ s₃ s₄ _ h₄ in
      let (taken, s₅, h₅, k₅) =
        bind-eq_ok (query engine "Falha ao validar login do usuário: " (login_taken input.login id))
          _ s₄ u s' k₄ in
      let (look, d₅) = query-eq_ok engine _ (login_taken input.login id) s₄ s₅ taken h₅ in
      let (_, s₆, h₆, k₆) = bind-eq_ok (refuse_if taken _) _ s₅ u s' k₅ in
      let (free, d₆) = refuse_if-eq_ok taken _ s₅ s₆ _ h₆ in
      let lacks_profile = not (input.master_user == 1) && length input.profile_ids == 0 in
      let (_, s₇, h₇, k₇) = bind-eq_ok (refuse_if lacks_profile _) _ s₆ u s' k₆ in
      let (has_one, d₇) = refuse_if-eq_ok lacks_profile _ s₆ s₇ _ h₇ in
      let lacks_company = not (input.master_user == 1) && length input.empresa_ids == 0 in
      let (_, s₈, h₈, k₈) = bind-eq_ok (refuse_if lacks_company _) _ s₇ u s' k₇ in
      let (has_other, d₈) = refuse_if-eq_ok lacks_company _ s₇ s₈ _ h₈ in
      let (_, s₉, h₉, k₉) =
        bind-eq_ok (for_each input.profile_ids (check_profile_id engine)) _ s₈ u s' k₈ in
      let (profiles, d₉) =
        for_each-all has_profile (check_profile_id engine) check_profile_id-eq_ok input.profile_ids
          s₈ s₉ _ h₉ in
      let (companies, d) =
        for_each-all has_company (check_company_id engine) check_company_id-eq_ok input.empresa_ids
          s₉ s' u k₉ in
      let e₄ : s₄.db ≡ s.db = d₄ ∙ d₃ ∙ d₂ ∙ d₁ in
      let e₈ : s₈.db ≡ s.db = d₈ ∙ d₇ ∙ d₆ ∙ d₅ ∙ e₄ in
      (
        record {
          least = least;
          policy = policy;
          long_enough = long_login (as_usize least) input.login long;
          good_email = λ e k. good_address input.email e email k;
          stays_on = switched_on id actor input stays;
          free_login = λ u m e.
              own_login id input.login s.db u
                (sym (look ∙ ap (login_taken input.login id) e₄) ∙ free) m e;
          some_profile = not_empty input.master_user input.profile_ids has_one;
          some_company = not_empty input.master_user input.empresa_ids has_other;
          profiles = λ p m.
              each_listed (λ (q : Profile). q.id) s.db.profiles input.profile_ids p
                (subst (λ db. all (λ p. has_profile p db) input.profile_ids ≡ true) e₈ profiles) m;
          companies = λ c m.
              each_listed (λ (q : Company). q.id) s.db.companies input.empresa_ids c
                (subst (λ db. all (λ c. has_company c db) input.empresa_ids ≡ true) (d₉ ∙ e₈)
                  companies)
                m;
        },
        d ∙ d₉ ∙ e₈,
      )
