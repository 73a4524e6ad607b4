-- ===== src/Weather/Configuration.antt =====
-- components/weather/weather.c, the configuration: what is accepted, loaded and saved. A string comes
-- with its length as a list.
use esp32_monitor.Base.{
  ℕ, ◌-◌, ◌≤◌, ◌≡◌, ◌≢◌, Bool, true, false, not, ◌&&◌, ◌||◌, Option, none, some, List, [], ◌∷◌, leb,
  ◌==◌, if◌then◌else◌, length, get_or, All, arith,
}
use esp32_monitor.Base.Options.{◌>>=◌}
use esp32_monitor.Json.{Double, is_above, is_below_minus}
use esp32_monitor.Weather.Values.{whole_number}

abbrev pub host_max_bytes : ℕ
host_max_bytes = 127

abbrev pub key_max_bytes : ℕ
key_max_bytes = 95

-- weather_configuration_t.
pub record Configuration : Type 0 where
  pub api_host : List ℕ
  pub api_key : List ℕ
  pub longitude : Double
  pub latitude : Double
  pub is_valid : Bool

abbrev pub configuration_of : List ℕ → List ℕ → Double → Double → Bool → Configuration
configuration_of host key longitude latitude valid = record {
  api_host = host;
  api_key = key;
  longitude = longitude;
  latitude = latitude;
  is_valid = valid;
}

abbrev pub no_configuration : Configuration
no_configuration = configuration_of [] [] (whole_number false 0) (whole_number false 0) false

-- isalnum in the locale C.
abbrev pub is_alnum : ℕ → Bool
is_alnum byte =
    leb 48 byte && leb byte 57 || leb 65 byte && leb byte 90 || leb 97 byte && leb byte 122

abbrev pub valid_host_character : ℕ → Bool
valid_host_character byte = is_alnum byte || byte == 46 || byte == 45

abbrev pub valid_key_character : ℕ → Bool
valid_key_character byte = is_alnum byte || byte == 45 || byte == 95

-- A loop that returns at the first byte that is not valid.
abbrev pub all_valid : (ℕ → Bool) → List ℕ → Bool
all_valid valid [] = true
all_valid valid (byte ∷ bytes) = valid byte && all_valid valid bytes

abbrev pub is_coordinate : ℕ → Double → Bool
is_coordinate limit value =
    value.finite && not (is_below_minus value limit) && not (is_above value limit)

abbrev pub sizes_fit : List ℕ → List ℕ → Bool
sizes_fit host key =
    not (length host == 0)
    && leb (length host) host_max_bytes
    && not (length key == 0)
    && leb (length key) key_max_bytes

abbrev pub is_place : Double → Double → Bool
is_place longitude latitude = is_coordinate 180 longitude && is_coordinate 90 latitude

abbrev pub has_no_outer_dot : List ℕ → Bool
has_no_outer_dot host = not (get_or host 0 0 == 46) && not (get_or host (length host - 1) 0 == 46)

unfoldable pub validate_configuration : List ℕ → List ℕ → Double → Double → Bool
validate_configuration host key longitude latitude =
    if not (sizes_fit host key) || not (is_place longitude latitude) || not (has_no_outer_dot host)
    then false
    else all_valid valid_host_character host && all_valid valid_key_character key

-- What nvs_get_str and nvs_get_blob give for the four keys, `none` for an error.
pub record Stored : Type 0 where
  pub stored_host : Option (List ℕ)
  pub stored_key : Option (List ℕ)
  pub stored_longitude : Option Double
  pub stored_latitude : Option Double

abbrev pub checked : Configuration → Configuration
checked loaded = record loaded {
  is_valid = validate_configuration loaded.api_host loaded.api_key loaded.longitude loaded.latitude;
}

abbrev pub or_none : Option Configuration → Configuration
or_none none = no_configuration
or_none (some loaded) = loaded

-- What is loaded; where a key is missing it is not valid, and its other fields are not used.
unfoldable pub load_configuration : Stored → Configuration
load_configuration stored = or_none do
  host ← stored.stored_host
  key ← stored.stored_key
  longitude ← stored.stored_longitude
  latitude ← stored.stored_latitude
  some (checked (configuration_of host key longitude latitude false))

-- A byte of a host: a letter, a digit, a dot or a dash.
abbrev pub IsHostByte : ℕ → Type 0
IsHostByte byte = valid_host_character byte ≡ true

abbrev pub IsKeyByte : ℕ → Type 0
IsKeyByte byte = valid_key_character byte ≡ true

-- The host and the key are in the arrays, of the bytes that a URL and a header take as they are.
pub record IsUsable (configuration : Configuration) : Type 0 where
  pub host_fits : (length configuration.api_host ≤ 127) × (length configuration.api_host ≢ 0)
  pub key_fits : (length configuration.api_key ≤ 95) × (length configuration.api_key ≢ 0)
  pub host_plain : All IsHostByte configuration.api_host
  pub key_plain : All IsKeyByte configuration.api_key

validated :
    (sizes place dots host key : Bool)
    → (if not sizes || not place || not dots then false else host && key) ≡ true
    → (sizes ≡ true) × (host ≡ true) × (key ≡ true)
validated sizes place dots host key h = (ground arith, ground arith, ground arith)

both : (a b : Bool) → (a && b) ≡ true → (a ≡ true) × (b ≡ true)
both a b h = (ground arith, ground arith)

all_valid-All :
    (valid : ℕ → Bool) (bytes : List ℕ)
    → all_valid valid bytes ≡ true
    → All (λ byte. valid byte ≡ true) bytes
all_valid-All valid [] h = tt
all_valid-All valid (byte ∷ bytes) h =
    let (this, others) = both (valid byte) (all_valid valid bytes) h in
    (this, all_valid-All valid bytes others)

pub validate_configuration-IsUsable :
    (configuration : Configuration)
    → validate_configuration configuration.api_host configuration.api_key configuration.longitude
        configuration.latitude
      ≡ true
    → IsUsable configuration
unfolding validate_configuration
validate_configuration-IsUsable configuration h =
    let (sizes, host_plain, key_plain) =
      validated (sizes_fit configuration.api_host configuration.api_key)
        (is_place configuration.longitude configuration.latitude)
        (has_no_outer_dot configuration.api_host)
        (all_valid valid_host_character configuration.api_host)
        (all_valid valid_key_character configuration.api_key) h in
    record {
      host_fits = (ground arith, ground arith);
      key_fits = (ground arith, ground arith);
      host_plain = all_valid-All valid_host_character configuration.api_host host_plain;
      key_plain = all_valid-All valid_key_character configuration.api_key key_plain;
    }
