-- ===== src/Esp.antt =====
-- esp_err_t, the error codes that the components pass on.
use esp32_monitor.Base.{ℕ, Bool, true, false}

pub data EspErr : Type 0 where
  esp_ok fail no_mem invalid_arg invalid_state invalid_size : EspErr
  not_found timeout invalid_response wifi_not_connect : EspErr
  other_error : (code : ℕ) → EspErr

unfoldable pub is_esp_ok : EspErr → Bool
is_esp_ok esp_ok = true
is_esp_ok _ = false

-- ESP_ERR_INVALID_STATE, which some calls return for what is done already.
unfoldable pub is_invalid_state : EspErr → Bool
is_invalid_state invalid_state = true
is_invalid_state _ = false

unfoldable pub is_not_connect : EspErr → Bool
is_not_connect wifi_not_connect = true
is_not_connect _ = false
