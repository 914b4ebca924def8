-- ===== src/License/Samples.antt =====
-- Small JSON values, date formats, an HTTP library, a machine and its files, for tests.
use tunnara.Prelude.{
  ℕ, zero, suc, Bool, true, ◌&&◌, Option, none, some, String, List, [], ◌∷◌, if◌then◌else◌, leb,
  str_eq,
}
use tunnara.Prelude.Int.{pos}
use tunnara.Prelude.Text.{◌++◌ as append, show_ℕ}
use tunnara.License.Models.{LicenseConfig, default_config}
use tunnara.License.World.{done}
use tunnara.License.Device.{Machine}
use tunnara.License.Registration.{Host}
use tunnara.License.Json.{Kind, null, bool, number, string, array, object, Json, Formats}
use tunnara.License.Client.{Http}

mutual
  pub data Value : Type 0 where
    nothing : Value
    flag : Bool → Value
    int : ℕ → Value
    text : String → Value
    seq : Items → Value
    fields : Members → Value

  pub data Items : Type 0 where
    end : Items
    item : Value → Items → Items

  pub data Members : Type 0 where
    close : Members
    member : String → Value → Members → Members

abbrev items : Items → List Value
items end = []
items (item v vs) = v ∷ items vs

abbrev pub lookup : Members → String → Option Value
lookup close k = none
lookup (member j v m) k = let rest = lookup m k in if str_eq j k then some v else rest

abbrev items_of : List Value → Items
items_of [] = end
items_of (v ∷ vs) = item v (items_of vs)

abbrev members_of : List (String × Value) → Members
members_of [] = close
members_of ((k, v) ∷ m) = member k v (members_of m)

abbrev view : Value → Kind Value
view nothing = null
view (flag b) = bool b
view (int n) = number (record { as_i64 = some (pos n); as_u64 = some n; printed = show_ℕ n })
view (text s) = string s
view (seq vs) = array (items vs)
view (fields m) = object (lookup m)

abbrev pub values : Json Value
values = record {
  view = view;
  of_null = nothing;
  of_bool = flag;
  of_ℕ = int;
  of_string = text;
  of_array = λ vs. seq (items_of vs);
  of_object = λ m. fields (members_of m);
}

-- Texts in capitals already, and no text is a date.
abbrev pub formats : Formats
formats = record {
  to_uppercase = λ s. s;
  parse_from_rfc3339 = λ s. none;
  parse_from_str = λ s f. none;
  parse_naive = λ s f. none;
  from_local = λ t. some t;
}

-- The state counts the requests; every request gets the same status and body.
abbrev pub server : ℕ → Value → Http ℕ Value
server status body = record {
  send = λ r n. (done (record { status = status; json = λ n. (done body, n) }), suc n);
  is_success = λ s. leb 200 s && leb s 299;
  status_text = show_ℕ;
  local_now = λ n. ("2026-01-01 00:00:00", n);
}

abbrev pub reached : LicenseConfig
reached = record default_config { base_url = "https://api.test/" }

abbrev pub granting : Members
granting = member "success" (flag true) (
    member "license"
      (fields (member "QTD_MAQ" (int 5) (member "devices" (seq (item (fields close) end)) close)))
      close)

abbrev file : String → Option String
file path =
    if str_eq path "/etc/os-release"
    then some "NAME=x\nPRETTY_NAME=\"Linux 1\"\n"
    else if str_eq path "/sys/class/net/lo/address"
    then some "00:00:00:00:00:00\n"
    else if str_eq path "/sys/class/net/eth0/address"
    then some "02:00:00:00:00:01\n"
    else none

abbrev pub machine : Machine
machine = record {
  hostname_get = some "pdv-1";
  env_var = λ key. if str_eq key "USER" then some "ana" else none;
  current_exe = some "//server/app";
  os = "linux";
  arch = "x86_64";
  read_to_string = file;
  addresses_in = λ dir. some ("/sys/class/net/lo/address" ∷ "/sys/class/net/eth0/address" ∷ []);
  to_uppercase = λ s. s;
  sha256_hex = λ s. s;
}

abbrev zeros : ℕ → List ℕ
zeros zero = []
zeros (suc n) = 0 ∷ zeros n

abbrev pub document : Value
document = fields (
    member "company" (fields (member "document" (text "12.3") close))
      (member "signature" (fields (member "value" (text "sig") close)) close))

-- Its one file is the second candidate; `valid` says how the signature is judged.
abbrev pub host : Bool → Host Value ℕ
host valid = record {
  current_exe = some "/app/x";
  parent = λ p. some "/app";
  current_dir = none;
  base_dirs = some ("/data", "/config");
  project_dirs = none;
  program_data = none;
  join = λ a b. append a (append "/" b);
  exists = λ p. str_eq p "/app/wwreg.lic";
  read = λ p. done [];
  encode = λ bytes. "";
  decode = λ s. done (zeros (if str_eq s "key" then 32 else 64));
  from_slice = λ bytes. done document;
  to_vec = λ v. done [];
  remove = λ k v. v;
  key_from_bytes = λ bytes. done 0;
  verify = λ k m s. valid;
}
