-- ===== src/AppAuth.antt =====
-- The application's handshake, firmware/components/app_auth/app_auth.c: its state, and the sizes of
-- its messages. The calls of mbedtls, of the random generator and of the flash storage are the
-- records Md, Random and Nvs. The storage's handle is no part of the state.
mod Compare
pub mod Handshake
pub mod Load
pub mod Outcomes
pub mod Agreement
mod Examples
use esp32_monitor.Base.{ℕ, ◌+◌, Bool, false, Option, List, replicate}

abbrev pub payload_version : ℕ
payload_version = 1

abbrev pub nonce_size : ℕ
nonce_size = 16

abbrev pub session_id_size : ℕ
session_id_size = 8

abbrev pub shared_key_size : ℕ
shared_key_size = 32

abbrev pub hmac_size : ℕ
hmac_size = 32

abbrev pub hello_size : ℕ
hello_size = 2 + nonce_size

abbrev pub challenge_size : ℕ
challenge_size = 2 + nonce_size + session_id_size

abbrev pub enrollment_challenge_size : ℕ
enrollment_challenge_size = challenge_size + shared_key_size

abbrev pub response_size : ℕ
response_size = 2 + hmac_size

-- desk_auth_result_code_t.
pub data ResultCode : Type 0 where
  failed succeeded enrollment_required enrollment_closed : ResultCode
  invalid_request storage_failed : ResultCode

-- app_auth_state_t.
pub record AuthState : Type 0 where
  pub initialized : Bool
  pub has_shared_key : Bool
  pub migration_enrollment_pending : Bool
  pub challenge_active : Bool
  pub pending_enrollment : Bool
  pub shared_key : List ℕ
  pub pending_key : List ℕ
  pub client_nonce : List ℕ
  pub device_nonce : List ℕ
  pub session_id : List ℕ

-- HMAC-SHA256 of a message that is given in parts, or `none` where a call of mbedtls fails.
pub record Md : Type 0 where
  pub hmac : List ℕ → List (List ℕ) → Option (List ℕ)

-- What esp_fill_random writes during one call of begin.
pub record Random : Type 0 where
  pub key : List ℕ
  pub nonce : List ℕ
  pub session : List ℕ

-- Whether the calls that save a key succeed.
pub record Nvs : Type 0 where
  pub set_blob : List ℕ → Bool
  pub erase_key : Bool
  pub commit : Bool

abbrev pub clear_session_material : AuthState → AuthState
clear_session_material state = record state {
  pending_key = replicate shared_key_size 0;
  client_nonce = replicate nonce_size 0;
  device_nonce = replicate nonce_size 0;
  session_id = replicate session_id_size 0;
  challenge_active = false;
  pending_enrollment = false;
}
