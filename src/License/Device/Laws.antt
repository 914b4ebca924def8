-- ===== src/License/Device/Laws.antt =====
-- What completing an input with the machine's data (License/Device.antt) keeps and gives.
use tunnara.Prelude.{
  ◌≡◌, refl, Bool-cases, Option, none, some, String, List, [], ◌∷◌, ap, inl, inr, ◌∙◌, unwrap_or,
  true, false, arith,
}
use tunnara.Prelude.Text.{is_empty}
use tunnara.License.Models.{LicenseCheckInput}
use tunnara.License.Device.{
  Machine, DeviceCollectedInfo, fill, fill_list, fill_fields, non_empty_or_none, add_key,
  collect_device_metadata, generate_device_key, enrich_input,
}

module _ (m : Machine) where
  fill_idem : (given other : Option String) → fill m (fill m given other) other ≡ fill m given other
  fill_idem given other = elim (Bool-cases (is_empty (unwrap_or given ""))) [
    | inl e ↦ ground arith
    | inr e ↦ ground arith
  ]

  fill_list_idem :
      (given other : List String)
      → fill_list m (fill_list m given other) other ≡ fill_list m given other
  fill_list_idem [] [] = refl
  fill_list_idem [] (x ∷ xs) = refl
  fill_list_idem (x ∷ xs) other = refl

  fill_fields_idem :
      (info : DeviceCollectedInfo) (i : LicenseCheckInput)
      → fill_fields m info (fill_fields m info i) ≡ fill_fields m info i
  unfolding fill_fields
  fill_fields_idem info i = λ t. record (fill_fields m info i) {
    hostname = fill_idem i.hostname (some info.hostname) t;
    computer_name = fill_idem i.computer_name (some info.computer_name) t;
    station_name = fill_idem i.station_name (some info.station_name) t;
    device_name = fill_idem i.device_name (some info.station_name) t;
    serial_number = fill_idem i.serial_number (non_empty_or_none info.serial_number) t;
    machine_guid = fill_idem i.machine_guid (non_empty_or_none info.machine_guid) t;
    bios_serial = fill_idem i.bios_serial (non_empty_or_none info.bios_serial) t;
    motherboard_serial =
        fill_idem i.motherboard_serial (non_empty_or_none info.motherboard_serial) t;
    logged_user = fill_idem i.logged_user (non_empty_or_none info.logged_user) t;
    os_name = fill_idem i.os_name (non_empty_or_none info.os_name) t;
    os_version = fill_idem i.os_version (non_empty_or_none info.os_version) t;
    os_arch = fill_idem i.os_arch (non_empty_or_none info.os_arch) t;
    domain_name = fill_idem i.domain_name (non_empty_or_none info.domain_name) t;
    install_mode = fill_idem i.install_mode (non_empty_or_none info.install_mode) t;
    mac_addresses = fill_list_idem i.mac_addresses info.mac_addresses t;
  }

  abbrev keyed : LicenseCheckInput → Option String → LicenseCheckInput
  keyed i key = record i { device_key = key }

  fill_fields-keyed :
      (info : DeviceCollectedInfo) (i : LicenseCheckInput) (key : Option String)
      → fill_fields m info (keyed i key) ≡ keyed (fill_fields m info i) key
  unfolding fill_fields
  fill_fields-keyed info i key = refl

  add_key_idem :
      (i : LicenseCheckInput) (key : Option String)
      → key ≡ (add_key m i).device_key
      → add_key m (keyed i key) ≡ keyed i key
  unfolding generate_device_key
  add_key_idem i key h =
      ap (keyed i) (rw h (fill_idem i.device_key (some (generate_device_key m i))))

  -- Completing an input twice is completing it once.
  pub enrich_input_idem :
      (i : LicenseCheckInput) → enrich_input m (enrich_input m i) ≡ enrich_input m i
  unfolding enrich_input
  enrich_input_idem i =
      let info = collect_device_metadata m in
      let filled = fill_fields m info i in
      let key = (add_key m filled).device_key in
      ap (add_key m)
        (fill_fields-keyed info filled key ∙ ap (λ x. keyed x key) (fill_fields_idem info i))
      ∙ add_key_idem filled key refl

  -- A field that was given, and not empty, is kept.
  abbrev pub Kept : Option String → Option String → Type 0
  Kept given now = is_empty (unwrap_or given "") ≡ false → now ≡ given

  -- It is kept, and otherwise it is the machine's.
  abbrev pub Completed : Option String → Option String → Option String → Type 0
  Completed given other now = Kept given now × (is_empty (unwrap_or given "") ≡ true → now ≡ other)

  fill-Completed : (given other : Option String) → Completed given other (fill m given other)
  fill-Completed given other = (λ h. rw h refl, λ h. rw h refl)

  -- A list that was given, and is not empty, is kept.
  fill_list-kept :
      (given other : List String) (x : String) (xs : List String)
      → given ≡ x ∷ xs
      → fill_list m given other ≡ given
  fill_list-kept [] other x xs e = cc
  fill_list-kept (y ∷ ys) other x xs e = refl

  -- What an input keeps, what it takes from the machine, and that nothing else changes.
  abbrev pub KeepsFields : LicenseCheckInput → LicenseCheckInput → Type 0
  KeepsFields i o =
      let info = collect_device_metadata m in
      Completed i.hostname (some info.hostname) o.hostname
      × Completed i.computer_name (some info.computer_name) o.computer_name
      × Completed i.station_name (some info.station_name) o.station_name
      × Completed i.device_name (some info.station_name) o.device_name
      × Completed i.serial_number (non_empty_or_none info.serial_number) o.serial_number
      × Completed i.machine_guid (non_empty_or_none info.machine_guid) o.machine_guid
      × Completed i.bios_serial (non_empty_or_none info.bios_serial) o.bios_serial
      × Completed i.motherboard_serial (non_empty_or_none info.motherboard_serial)
          o.motherboard_serial
      × Completed i.logged_user (non_empty_or_none info.logged_user) o.logged_user
      × Completed i.os_name (non_empty_or_none info.os_name) o.os_name
      × Completed i.os_version (non_empty_or_none info.os_version) o.os_version
      × Completed i.os_arch (non_empty_or_none info.os_arch) o.os_arch
      × Completed i.domain_name (non_empty_or_none info.domain_name) o.domain_name
      × Completed i.install_mode (non_empty_or_none info.install_mode) o.install_mode
      × Kept i.device_key o.device_key
      × ((x : String) (xs : List String)
          → i.mac_addresses ≡ x ∷ xs
          → o.mac_addresses ≡ i.mac_addresses)
      × (i.mac_addresses ≡ [] → o.mac_addresses ≡ info.mac_addresses)
      × (i ≡ record o {
        hostname = i.hostname;
        computer_name = i.computer_name;
        station_name = i.station_name;
        device_name = i.device_name;
        serial_number = i.serial_number;
        machine_guid = i.machine_guid;
        bios_serial = i.bios_serial;
        motherboard_serial = i.motherboard_serial;
        logged_user = i.logged_user;
        os_name = i.os_name;
        os_version = i.os_version;
        os_arch = i.os_arch;
        domain_name = i.domain_name;
        install_mode = i.install_mode;
        mac_addresses = i.mac_addresses;
        device_key = i.device_key;
      })

  -- An input is completed with a device key: its own, if it has one that is not empty, and
  -- otherwise the key generated of the completed input. Every field about the machine that was
  -- given and is not empty is kept, the list of the network addresses too, and every other of them
  -- is taken from the machine; and the fields that are not about the machine stay.
  pub enrich_input-KeepsFields :
      (i : LicenseCheckInput)
      → KeepsFields i (enrich_input m i)
        × ((k : String) × ((enrich_input m i).device_key ≡ some k))
        × (is_empty (unwrap_or i.device_key "") ≡ true
            → (enrich_input m i).device_key ≡ some (generate_device_key m (enrich_input m i)))
  unfolding enrich_input fill_fields generate_device_key
  enrich_input-KeepsFields i = (
    (
      fill-Completed i.hostname _,
      fill-Completed i.computer_name _,
      fill-Completed i.station_name _,
      fill-Completed i.device_name _,
      fill-Completed i.serial_number _,
      fill-Completed i.machine_guid _,
      fill-Completed i.bios_serial _,
      fill-Completed i.motherboard_serial _,
      fill-Completed i.logged_user _,
      fill-Completed i.os_name _,
      fill-Completed i.os_version _,
      fill-Completed i.os_arch _,
      fill-Completed i.domain_name _,
      fill-Completed i.install_mode _,
      (fill-Completed i.device_key _).0,
      λ x xs e. fill_list-kept i.mac_addresses _ x xs e,
      λ e. rw e refl,
      refl,
    ),
    some_key i.device_key _,
    λ h. rw h refl,
  )
    where
      some_key :
          (given : Option String) (other : String)
          → (k : String) × (fill m given (some other) ≡ some k)
      some_key none other = (other, refl)
      some_key (some k) other = elim (Bool-cases (is_empty k)) [
        | inl e ↦ (other, rw e refl)
        | inr e ↦ (k, rw e refl)
      ]
