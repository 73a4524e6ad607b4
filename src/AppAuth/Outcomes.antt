-- ===== src/AppAuth/Outcomes.antt =====
-- What the handshake promises.
use esp32_monitor.Base.{
  ℕ, ◌<◌, ◌≡◌, refl, arith, Bool, true, false, not, Option, none, some, List, ◌||◌, ◌!=◌, IsBytes,
  All-drop, gets, if_either, get_or, drop, length, replicate,
}
use esp32_monitor.AppAuth.{
  AuthState, ResultCode, succeeded, invalid_request, Md, Nvs, clear_session_material,
  payload_version, hmac_size, response_size,
}
use esp32_monitor.AppAuth.Compare.{constant_time_equal, constant_time_equal-gets}
use esp32_monitor.AppAuth.Handshake.{
  calculate_hmac, session_key, is_saved, accept_response, check_response, verify,
}

-- No challenge is open, no enrollment is pending, and the pending key, the nonces and the identifier
-- of the session are zeros.
pub record IsCleared (state : AuthState) : Type 0 where
  pub closed : state.challenge_active ≡ false
  pub not_pending : state.pending_enrollment ≡ false
  pub no_key : state.pending_key ≡ replicate 32 0
  pub no_client_nonce : state.client_nonce ≡ replicate 16 0
  pub no_device_nonce : state.device_nonce ≡ replicate 16 0
  pub no_session_id : state.session_id ≡ replicate 8 0

clear_session_material-IsCleared : (state : AuthState) → IsCleared (clear_session_material state)
clear_session_material-IsCleared state = record {
  closed = refl;
  not_pending = refl;
  no_key = refl;
  no_client_nonce = refl;
  no_device_nonce = refl;
  no_session_id = refl;
}

accept_response-IsCleared :
    (nvs : Nvs) (state : AuthState) → IsCleared (accept_response nvs state).0
unfolding accept_response
accept_response-IsCleared nvs state =
    let P : AuthState × ResultCode × Bool → Type 0 = λ r. IsCleared r.0 in
    let cleared = clear_session_material-IsCleared state in
    if_either P (not state.pending_enrollment) cleared (
      if_either P (not (is_saved nvs state)) cleared (
        clear_session_material-IsCleared (record state {
          shared_key = state.pending_key;
          has_shared_key = true;
          migration_enrollment_pending = false;
        })))

check_response-IsCleared :
    (nvs : Nvs) (state : AuthState) (expected : Option (List ℕ)) (response : List ℕ)
    → IsCleared (check_response nvs state expected response).0
unfolding check_response
check_response-IsCleared nvs state none response = clear_session_material-IsCleared state
check_response-IsCleared nvs state (some expected) response =
    if_either (λ (r : AuthState × ResultCode × Bool). IsCleared r.0)
      (not (constant_time_equal expected (drop 2 response) hmac_size))
      (clear_session_material-IsCleared state) (accept_response-IsCleared nvs state)

verify-IsCleared :
    (md : Md) (nvs : Nvs) (state : AuthState) (response : Option (List ℕ))
    → IsCleared (verify md nvs state response).0
unfolding verify
verify-IsCleared md nvs state none = clear_session_material-IsCleared state
verify-IsCleared md nvs state (some response) =
    if_either (λ (r : AuthState × ResultCode × Bool). IsCleared r.0)
      (not state.challenge_active
        || length response != response_size
        || get_or response 0 0 != payload_version)
      (clear_session_material-IsCleared state)
      (check_response-IsCleared nvs state (calculate_hmac md state (session_key state)) response)

verify_inactive :
    (md : Md) (nvs : Nvs) (state : AuthState) (response : Option (List ℕ))
    → state.challenge_active ≡ false
    → (verify md nvs state response).1 ≡ invalid_request
unfolding verify
verify_inactive md nvs state none h = refl
verify_inactive md nvs state (some response) h = ground (arith, h)

-- However a response is answered, no challenge is open, no enrollment is pending, the pending key,
-- the nonces and the identifier of the session are zeros, and until another challenge is begun every
-- response is an invalid request.
pub verify_once :
    (md : Md) (nvs nvs' : Nvs) (state : AuthState) (response response' : Option (List ℕ))
    → let state' = (verify md nvs state response).0 in
      IsCleared state' × ((verify md nvs' state' response').1 ≡ invalid_request)
verify_once md nvs nvs' state response response' =
    let cleared = verify-IsCleared md nvs state response in
    (cleared, verify_inactive md nvs' (verify md nvs state response).0 response' cleared.closed)

-- The HMAC that a success rests on, and the agreement of the response with it.
abbrev pub Proves : Md → AuthState → List ℕ → Type 0
Proves md state response =
    (expected : List ℕ) × (calculate_hmac md state (session_key state) ≡ some expected)
    × (gets hmac_size 0 expected 0 ≡ gets hmac_size 0 (drop 2 response) 0)

check_response-Proves :
    (nvs : Nvs) (state : AuthState) (answer : Option (List ℕ)) (response : List ℕ)
    → ((expected : List ℕ) → answer ≡ some expected → IsBytes expected)
    → IsBytes (drop 2 response)
    → (check_response nvs state answer response).1 ≡ succeeded
    → (expected : List ℕ) × (answer ≡ some expected)
      × (gets hmac_size 0 expected 0 ≡ gets hmac_size 0 (drop 2 response) 0)
unfolding check_response
check_response-Proves nvs state none response b c e = absurd (ground (arith, e))
check_response-Proves nvs state (some expected) response b c e = (
  expected,
  refl,
  (constant_time_equal-gets expected (drop 2 response) (b expected refl) c hmac_size).0
      (ground (arith, e)),
)

-- A response is accepted only while a challenge is open and only where its last 32 bytes are the
-- HMAC, under the session's key, of the domain, the nonces and the session's identifier.
pub verify-Proves :
    (md : Md) (nvs : Nvs) (state : AuthState) (response : List ℕ)
    → ((key : List ℕ) (parts : List (List ℕ)) (out : List ℕ)
        → md.hmac key parts ≡ some out
        → IsBytes out)
    → IsBytes response
    → (verify md nvs state (some response)).1 ≡ succeeded
    → (state.challenge_active ≡ true) × (length response ≡ response_size) × Proves md state response
unfolding verify
verify-Proves md nvs state response b c e =
    let passed : (state.challenge_active ≡ true)
        × (length response ≡ response_size)
        × ((check_response nvs state (calculate_hmac md state (session_key state)) response).1
            ≡ succeeded) =
      ground (arith, e) in
    (
      passed.0,
      passed.1,
      check_response-Proves nvs state (calculate_hmac md state (session_key state)) response
          (b (session_key state) _) (All-drop (λ x. x < 256) 2 response c) passed.2,
    )

-- The key changes only where *enrolled is set, which a pending enrollment, a success and a saved
-- key go with, and then it is the pending key.
pub verify_enrolls :
    (md : Md) (nvs : Nvs) (state : AuthState) (response : Option (List ℕ))
    → let (state', code, enrolled) = verify md nvs state response in
      (enrolled ≡ false
        → (state'.shared_key ≡ state.shared_key) × (state'.has_shared_key ≡ state.has_shared_key))
      × (enrolled ≡ true
          → (code ≡ succeeded)
            × (state.pending_enrollment ≡ true)
            × (is_saved nvs state ≡ true)
            × (state'.shared_key ≡ state.pending_key)
            × (state'.has_shared_key ≡ true))
unfolding verify check_response accept_response
verify_enrolls md nvs state none = ground arith
verify_enrolls md nvs state (some response) = ground arith
