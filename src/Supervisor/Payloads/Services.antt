-- ===== src/Supervisor/Payloads/Services.antt =====
-- The handlers of the settings of Wi-Fi and of the weather service.
use esp32_monitor.Base.{
  ℕ, Bool, not, Option, none, some, List, leb, ltb, ◌==◌, ◌&&◌, length, text, same_bytes,
}
use esp32_monitor.Base.Options.{◌>>=◌, ◌>>◌, require}
use esp32_monitor.Esp.{EspErr}
use esp32_monitor.Json.{Double, Cjson, get_item, as_number}
use esp32_monitor.Network.{NetworkState, Wifi, ssid_max_bytes, password_max_bytes}
use esp32_monitor.Network.Control.{provision}
use esp32_monitor.Supervisor.Payloads.{parse_json_object}
use esp32_monitor.Supervisor.Payloads.States.{string_item}

abbrev pub qweather_host_max_bytes : ℕ
qweather_host_max_bytes = 127

abbrev pub qweather_api_key_max_bytes : ℕ
qweather_api_key_max_bytes = 95

module _ {Node : Type 0} (cjson : Cjson Node) where
  abbrev pub number_item : Node → List ℕ → Option Double
  number_item node name = as_number cjson (get_item cjson (some node) name)

  abbrev pub are_credentials : List ℕ → List ℕ → Bool
  are_credentials ssid password =
      not (length ssid == 0)
      && leb (length ssid) ssid_max_bytes
      && leb (length password) password_max_bytes
      && not (ltb 0 (length password) && ltb (length password) 8)

  unfoldable pub read_credentials : List ℕ → Option (List ℕ × List ℕ)
  read_credentials payload = do
    root ← parse_json_object cjson payload
    ssid ← string_item cjson root (text "ssid")
    password ← string_item cjson root (text "password")
    require (are_credentials ssid password)
    some (ssid, password)

  -- desk_network_provision, where the payload has credentials.
  abbrev pub provision_with :
      Wifi → Option (List ℕ × List ℕ) → NetworkState → NetworkState × Option EspErr
  provision_with wifi none network = (network, none)
  provision_with wifi (some (ssid, password)) network =
      let (network', result) = provision wifi ssid password network in (network', some result)

  unfoldable pub apply_wifi_provision_payload :
      Wifi → List ℕ → NetworkState → NetworkState × Option EspErr
  apply_wifi_provision_payload wifi payload network =
      provision_with wifi (read_credentials payload) network

  abbrev pub fits_qweather : List ℕ → List ℕ → Bool
  fits_qweather host api_key =
      not (length host == 0)
      && leb (length host) qweather_host_max_bytes
      && not (length api_key == 0)
      && leb (length api_key) qweather_api_key_max_bytes

  unfoldable pub apply_weather_config_payload :
      (List ℕ → List ℕ → Double → Double → EspErr) → List ℕ → Option EspErr
  apply_weather_config_payload configure payload = do
    root ← parse_json_object cjson payload
    provider ← string_item cjson root (text "provider")
    require (same_bytes provider (text "qweather"))
    host ← string_item cjson root (text "host")
    api_key ← string_item cjson root (text "apiKey")
    longitude ← number_item root (text "longitude")
    require longitude.finite
    latitude ← number_item root (text "latitude")
    require latitude.finite
    require (fits_qweather host api_key)
    some (configure host api_key longitude latitude)
