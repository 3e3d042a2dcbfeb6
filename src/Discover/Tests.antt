-- ===== src/Discover/Tests.antt =====
-- A discovery whose two answers come in one text, and the theorems at it.
use gardena_matter_mqtt_brid.Base.{ℕ, ◌≡◌, refl, false, Option, none, some, List, [], ◌∷◌, All, map}
use gardena_matter_mqtt_brid.Base.Exec.{ok}
use gardena_matter_mqtt_brid.Text.{Str, str, str_eq, contains}
use gardena_matter_mqtt_brid.Text.Utf8.{
  encode, encode_char, decode, decode_from, decode_lead, decode_next,
}
use gardena_matter_mqtt_brid.WebSocket.{
  send_text, text_header, receive_text, read_size, answer, masked, send_control, unpack,
}
use gardena_matter_mqtt_brid.Json.{Json, string, dict, list, truthy}
use gardena_matter_mqtt_brid.Json.Dict.{Dict, NodupKeys, get, put, update}
use gardena_matter_mqtt_brid.Mower.{Mower, nested_value}
use gardena_matter_mqtt_brid.Transport.{
  Conn, chunk, send_all, start_packet, recv, recv_some, recv_exact,
}
use gardena_matter_mqtt_brid.Discover.{
  discover_mowers, collect_devices, note_messages, note_message, gateway_messages, messages_of,
  device_requests, discard, mowers_of,
}
use gardena_matter_mqtt_brid.Discover.Known.{IsKnown, discover_mowers-IsKnown}

-- A device of the given model.
abbrev device : Str → Json
device model = dict (
    (
      str "device",
      dict ((str "0", dict ((str "model_number", dict ((str "vs", string model) ∷ [])) ∷ [])) ∷ []),
    )
    ∷ [])

abbrev reply : Str → Dict Json → Json
reply id devices = dict ((str "request_id", string id) ∷ (str "payload", dict devices) ∷ [])

-- A sensor and a mower, then another mower.
abbrev answers : Json
answers = list (
    reply (str "a") ((str "d1", device (str "77")) ∷ (str "d2", device (str "488")) ∷ [])
    ∷ reply (str "b") ((str "d3", device (str "6146")) ∷ [])
    ∷ [])

abbrev loads : Str → Option Json
loads raw = some answers

abbrev text_of : Json → Str
text_of v = str "x"

abbrev masks : ℕ → List ℕ
masks n = 1 ∷ 2 ∷ 3 ∷ 4 ∷ []

abbrev gateway : Conn
gateway = record {
  incoming = chunk 10 (0x81 ∷ 1 ∷ 120 ∷ []) ∷ [];
  sent = [];
  timeout = some 15000;
  broken = false;
  now = 0;
  deadline = none;
}

abbrev mower : Str → Str → Str → Str → Mower
mower id model name generation = record {
  device_id = id;
  model_number = model;
  name = name;
  generation = generation;
  state = device model;
  publisher_key = none;
  publisher_identifier = none;
}

abbrev found : List Mower
found =
    mower (str "d2") (str "488") (str "GARDENA smart SILENO pro/max/free") (str "gen2")
    ∷ mower (str "d3") (str "6146") (str "GARDENA smart SILENO") (str "gen1")
    ∷ []

abbrev after : Conn
after = (discover_mowers loads text_of text_of masks (masks 0) (str "a") (str "b") gateway).1

finds :
    discover_mowers loads text_of text_of masks (masks 0) (str "a") (str "b") gateway
    ≡ (ok found, after)
unfolding discover_mowers send_text encode str text_header send_all collect_devices receive_text
    start_packet recv_exact read_size answer decode note_messages gateway_messages messages_of get
    device_requests discard mowers_of note_message put update truthy nested_value decode_from
    decode_lead decode_next encode_char contains str_eq recv recv_some masked send_control unpack
finds = refl

discover_mowers-IsKnown_example :
    All (IsKnown text_of) found × NodupKeys (map (λ m. (m.device_id, m)) found)
discover_mowers-IsKnown_example =
    discover_mowers-IsKnown loads text_of text_of masks (masks 0) (str "a") (str "b") gateway after
      found finds
