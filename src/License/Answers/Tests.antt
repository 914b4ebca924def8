-- ===== src/License/Answers/Tests.antt =====
-- Runs of the readers of JSON answers (License/Answers.antt), and a theorem at a concrete
-- input.
use tunnara.Prelude.{◌≡◌, refl, none, some}
use tunnara.License.Answers.{normalize_license}
use tunnara.License.Answers.Laws.{Counted, normalize_license-Counted}
use tunnara.License.Samples.{Value, fields, member, close, int, values, formats}

-- Two machines are allowed and three are in use.
abbrev crowded : Value
crowded = fields (member "QTD_MAQ" (int 2) (member "devices_in_use" (int 3) close))

crowded_run : (normalize_license values formats crowded).devices_available ≡ none
unfolding normalize_license
crowded_run = refl

-- 2 ^ 32 + 1 machines are one.
wrapped_run :
    (normalize_license values formats
      (fields (member "max_devices" (int 4294967297) close))).max_devices
    ≡ some 1
unfolding normalize_license
wrapped_run = refl

normalize_license-Counted_example : Counted (normalize_license values formats crowded)
normalize_license-Counted_example = normalize_license-Counted values formats crowded
