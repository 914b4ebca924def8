-- ===== src/License/Registration/Results.antt =====
-- Results in sequence (License/Registration.antt): what holds if a chain of them ends well.
use tunnara.Prelude.{◌≡◌, refl, Option, none, some, String}
use tunnara.License.Error.{LicenseError}
use tunnara.License.World.{Result, ok, err, Attempt, done, failed}
use tunnara.License.Registration.{and_result, or_error, ok_or}

-- What succeeds in a chain of results.
pub and_result-eq_ok :
    {A B : Type 0} (r : Result A) (f : A → Result B) (b : B)
    → and_result r f ≡ ok b
    → (a : A) × (r ≡ ok a) × (f a ≡ ok b)
and_result-eq_ok (ok a) f b h = (a, refl, h)
and_result-eq_ok (err x) f b h = absurd (cc)

pub or_error-eq_ok :
    {A : Type 0} (x : String → LicenseError) (r : Attempt A) (a : A)
    → or_error x r ≡ ok a
    → r ≡ done a
or_error-eq_ok x (done b) a h = cc
or_error-eq_ok x (failed m) a h = cc

pub ok_or-eq_ok :
    {A : Type 0} (o : Option A) (x : LicenseError) (a : A) → ok_or o x ≡ ok a → o ≡ some a
ok_or-eq_ok none x a h = cc
ok_or-eq_ok (some b) x a h = cc

pub some_inj : {A : Type 0} (a b : A) → some a ≡ some b → a ≡ b
some_inj a b h = cc

pub fst_eq : {A B : Type 0} {a b : A} {c d : B} → Path (A × B) (a, c) (b, d) → a ≡ b
fst_eq h = cc

pub ok_inj : {A : Type 0} (a b : A) → ok a ≡ ok b → a ≡ b
ok_inj a b h = cc
