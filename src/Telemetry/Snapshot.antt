-- ===== src/Telemetry/Snapshot.antt =====
-- gardena_local_mqtt/telemetry.py, `numeric` and `parse_snapshot`: the devices in an archive of the
-- gateway's LsDL documents. The members are what `tarfile` lists, each with what `json.loads` makes of
-- its content; `is_finite` is `math.isfinite(float(value))` of a text or a number, or what it raises;
-- `show` is `str` of a value that is no text, and `is_decimal` the class `\d`.
pub mod Parsed
pub mod Planned
mod Tests
use mathlib.Core.List.{reverse}
use gardena_matter_mqtt_brid.Base.{
  ℕ, suc, ◌*◌, Bool, true, false, not, ◌&&◌, ◌||◌, Option, none, some, List, [], ◌∷◌, ◌++◌, leb,
  ltb, length, if◌then◌else◌,
}
use gardena_matter_mqtt_brid.Base.Exec.{Result, ok, err, value_error}
use gardena_matter_mqtt_brid.Text.{Str, str, str_eq, contains, all_chars, split_slash, starts_with}
use gardena_matter_mqtt_brid.Json.{Json, null, string, int, float, obj, entries}
use gardena_matter_mqtt_brid.Json.Dict.{Dict, get, put}
use gardena_matter_mqtt_brid.Mower.{or_null}
use gardena_matter_mqtt_brid.Telemetry.{Device, bind, sensors, unalias, has_serial, is_empty}
use gardena_matter_mqtt_brid.Telemetry.Config.{is_some}

-- MAX_FILE and MAX_FILES
abbrev pub max_file : ℕ
max_file = 65536

abbrev pub max_files : ℕ
max_files = 4096

pub record Member : Type 0 where
  pub name : Str
  pub is_file : Bool
  pub size : ℕ
  pub content : Result Json

-- The parts of a `PurePosixPath`, its text, its parent and its name.
unfoldable pub real_parts : List Str → List Str
real_parts [] = []
real_parts (p ∷ ps) =
    let rest = real_parts ps in if is_empty p || str_eq p (str ".") then rest else p ∷ rest

unfoldable pub parts_of : Str → List Str
parts_of path = real_parts (split_slash path)

unfoldable pub join : List Str → Str
join [] = []
join (p ∷ []) = p
join (p ∷ q ∷ ps) = p ++ (str "/" ++ join (q ∷ ps))

unfoldable pub parent_of : List Str → List Str
parent_of [] = []
parent_of (p ∷ []) = []
parent_of (p ∷ q ∷ ps) = p ∷ parent_of (q ∷ ps)

unfoldable pub last_of : List Str → Str
last_of [] = []
last_of (p ∷ []) = p
last_of (p ∷ q ∷ ps) = last_of (q ∷ ps)

unfoldable pub same_parts : List Str → List Str → Bool
same_parts [] [] = true
same_parts (p ∷ ps) (q ∷ qs) = str_eq p q && same_parts ps qs
same_parts _ _ = false

abbrev longer : ℕ → Option Str → Option Str
longer c none = none
longer c (some s) = some (c ∷ s)

-- What stands before `.json`.
unfoldable pub stem : Str → Option Str
stem [] = none
stem (c ∷ s) = let rest = stem s in if str_eq (c ∷ s) (str ".json") then some [] else longer c rest

-- `path.suffix == '.json'`
abbrev pub is_json : Option Str → Bool
is_json (some (c ∷ s)) = true
is_json _ = false

abbrev pub is_unsafe : Str → Bool
is_unsafe name = starts_with name (str "/") || contains (parts_of name) (str "..")

abbrev document : Dict (Dict Json) → Str → Result Json → Result (Dict (Dict Json))
document documents name (ok (obj f)) = ok (put (join (parts_of name)) (entries f) documents)
document documents name (ok _) = err value_error
document documents name (err e) = err e

-- The body of the loop over the members, at the given index.
unfoldable pub read_member : ℕ → Member → Dict (Dict Json) → Result (Dict (Dict Json))
read_member index m documents =
    if leb max_files index
    then err value_error
    else if is_unsafe m.name
    then err value_error
    else if not m.is_file || not (is_json (stem (last_of (parts_of m.name))))
    then ok documents
    else if ltb max_file m.size
    then err value_error
    else document documents m.name m.content

unfoldable pub read_members : ℕ → List Member → Dict (Dict Json) → Result (Dict (Dict Json))
read_members index [] documents = ok documents
read_members index (m ∷ ms) documents =
    bind (read_member index m documents) (λ more. read_members (suc index) ms more)

module _ (is_finite : Json → Result Bool) (show : Json → Str) where
  abbrev finite : Str → Result Bool → Result Str
  finite text (ok true) = ok text
  finite text (ok false) = err value_error
  finite text (err e) = err e

  -- `numeric(value)`
  unfoldable pub numeric : Json → Result Str
  numeric (string s) = finite s (is_finite (string s))
  numeric (int n) = finite (show (int n)) (is_finite (int n))
  numeric (float x) = finite (show (float x)) (is_finite (float x))
  numeric _ = err value_error

module _ (is_decimal : ℕ → Bool) where
  unfoldable pub leading : Str → Str
  leading [] = []
  leading (c ∷ s) = let rest = leading s in if is_decimal c then c ∷ rest else []

  abbrev some_digits : Str → Option Str
  some_digits [] = none
  some_digits (c ∷ s) = some (c ∷ s)

  abbrev number_before : Option Str → Option Str
  number_before none = none
  number_before (some s) = some_digits (reverse (leading (reverse s)))

  module _ (show : Json → Str) where
    -- `str(resource_id)`, from the name of the schema when it has no id
    abbrev pub resource_id : Str → Json → Option Str
    resource_id name null = number_before (stem name)
    resource_id name (string s) = some s
    resource_id name v = some (show v)

  -- `re.fullmatch(r'\d{1,10}', id)`
  abbrev pub is_id : Str → Bool
  is_id s = not (is_empty s) && (leb (length s) 10 && all_chars is_decimal s)

  abbrev checked_id : Option Str → Option Str
  checked_id none = none
  checked_id (some s) = if is_id s then some s else none

-- The resource of a schema, one of SENSORS.
abbrev listed : Str → Option Str
listed resource = if is_some (get resource sensors) then some resource else none

abbrev pub resource_of : Json → Option Str
resource_of (string name) = listed (unalias name)
resource_of _ = none

module _ (is_finite : Json → Result Bool) (show : Json → Str) (is_decimal : ℕ → Bool)
    (documents : Dict (Dict Json)) where
  abbrev stored : Str → Dict Str → Result Str → Result (Dict Str)
  stored resource values (ok text) = ok (put resource text values)
  stored resource values (err e) = err e

  abbrev pub with_value : Str → Dict Str → Option (Dict Json) → Result (Dict Str)
  with_value resource values none = ok values
  with_value resource values (some d) =
      stored resource values (numeric is_finite show (or_null (get (str "value") d)))

  abbrev with_id : List Str → Str → Dict Str → Option Str → Result (Dict Str)
  with_id parent resource values none = ok values
  with_id parent resource values (some id) =
      with_value resource values
        (get (join (parent ++ str "Value" ∷ (str "Value_" ++ (id ++ str "r.json")) ∷ [])) documents)

  abbrev pub with_resource : List Str → Str → Dict Json → Dict Str → Option Str → Result (Dict Str)
  with_resource parent name schema values none = ok values
  with_resource parent name schema values (some resource) =
      with_id parent resource values
        (checked_id is_decimal (resource_id is_decimal show name (or_null (get (str "id") schema))))

  -- The body of the inner loop, for a device's parent path.
  unfoldable pub read_value : List Str → Str → Dict Json → Dict Str → Result (Dict Str)
  read_value parent path schema values =
      if same_parts (parent_of (parts_of path)) (parent ++ str "Value_description" ∷ [])
      then with_resource parent (last_of (parts_of path)) schema values
          (resource_of (or_null (get (str "name") schema)))
      else ok values

  unfoldable pub read_values : List Str → Dict (Dict Json) → Dict Str → Result (Dict Str)
  read_values parent [] values = ok values
  read_values parent ((path, schema) ∷ rest) values =
      bind (read_value parent path schema values) (λ more. read_values parent rest more)

  -- `not isinstance(serial, str) or not serial or len(serial) > 256`, negated
  abbrev pub serial_of : Json → Option Str
  serial_of (string s) = if is_empty s || ltb 256 (length s) then none else some s
  serial_of _ = none

  abbrev described : Str → Dict Json → Option Str
  described path description =
      if starts_with (last_of (parts_of path)) (str "Device_descriptionID_")
      then serial_of (or_null (get (str "serialid") description))
      else none

  abbrev pub with_values : Str → Dict Str → List Device → List Device
  with_values serial [] rest = rest
  with_values serial (p ∷ values) rest = record { serial = serial; values = p ∷ values } ∷ rest

  abbrev pub with_serial : List Str → Option Str → Result (List Device) → Result (List Device)
  with_serial parent none rest = rest
  with_serial parent (some serial) rest =
      bind (read_values parent documents [])
        (λ values. bind rest (λ devices. ok (with_values serial values devices)))

  -- The loop over the device descriptions.
  unfoldable pub read_devices : Dict (Dict Json) → Result (List Device)
  read_devices [] = ok []
  read_devices ((path, description) ∷ rest) =
      with_serial (parent_of (parts_of path)) (described path description) (read_devices rest)

-- `len({d.serial for d in devices}) == len(devices)`
abbrev pub distinct : List Device → Bool
distinct [] = true
distinct (d ∷ ds) = not (has_serial ds d.serial) && distinct ds

abbrev pub checked : Result (List Device) → Result (List Device)
checked (ok devices) =
    if not (distinct devices)
    then err value_error
    else if is_empty devices
    then err value_error
    else ok devices
checked (err e) = err e

-- `parse_snapshot(raw)` of the members in the archive.
unfoldable pub parse_snapshot :
    (Json → Result Bool) → (Json → Str) → (ℕ → Bool) → List Member → Result (List Device)
parse_snapshot is_finite show is_decimal members =
    bind (read_members 0 members [])
      (λ documents. checked (read_devices is_finite show is_decimal documents documents))
