-- ===== src/Access/Rows.antt =====
-- What the statements of the access control do to the tables, one function for each kind of
-- statement, with the constraints of apps/console/src-tauri/src/migrations.rs.
pub mod Sorting
use tunnara.Prelude.{Bool, Option, String, List, [], ◌∷◌, any, find, if◌then◌else◌, str_eq}
use tunnara.Prelude.Int.{ℤ, eqb_ℤ, ltb_ℤ}
use text.Mathlib.Text.{is_lt}
use Prim.Native.String as Native
use tunnara.Database.Tables.{Database, User, Profile}
use tunnara.Database.Command.{Result, err}

-- `<` on texts: by their characters.
abbrev pub text_lt : String → String → Bool
text_lt s t = is_lt (Native.compare s t)

-- `ORDER BY … ASC` and `sort`: by the text that `key` gives.
module _ {A : Type 0} (key : A → String) where
  insert_by : A → List A → List A
  insert_by a [] = a ∷ []
  insert_by a (b ∷ bs) =
      let rest = insert_by a bs in if text_lt (key b) (key a) then b ∷ rest else a ∷ b ∷ bs

  unfoldable pub sort_by : List A → List A
  unfolding insert_by
  sort_by [] = []
  sort_by (a ∷ bs) = insert_by a (sort_by bs)

abbrev pub sort_texts : List String → List String
unfolding sort_by
sort_texts = sort_by (λ s. s)

-- `dedup`, and `DISTINCT` on a sorted list.
pub dedup_from : String → List String → List String
dedup_from last [] = []
dedup_from last (s ∷ ss) =
    let rest = dedup_from s ss in
    let same = dedup_from last ss in if str_eq s last then same else s ∷ rest

unfoldable pub dedup : List String → List String
unfolding dedup_from
dedup [] = []
dedup (s ∷ ss) = s ∷ dedup_from s ss

abbrev pub violated : {A : Type 0} → String → Result A
violated columns = err columns

abbrev pub has_user : ℤ → Database → Bool
has_user i db = any (λ u. eqb_ℤ u.id i) db.users

abbrev pub has_profile : ℤ → Database → Bool
has_profile i db = any (λ p. eqb_ℤ p.id i) db.profiles

abbrev pub has_company : ℤ → Database → Bool
has_company i db = any (λ c. eqb_ℤ c.id i) db.companies

abbrev pub user_by_id : ℤ → Database → Option User
user_by_id i db = find (λ u. eqb_ℤ u.id i) db.users

abbrev pub profile_by_id : ℤ → Database → Option Profile
profile_by_id i db = find (λ p. eqb_ℤ p.id i) db.profiles

-- `ORDER BY … ASC` on numbers.
insert_id : ℤ → List ℤ → List ℤ
insert_id i [] = i ∷ []
insert_id i (j ∷ js) = let rest = insert_id i js in if ltb_ℤ j i then j ∷ rest else i ∷ j ∷ js

unfoldable pub sort_ids : List ℤ → List ℤ
unfolding insert_id
sort_ids [] = []
sort_ids (i ∷ is) = insert_id i (sort_ids is)
