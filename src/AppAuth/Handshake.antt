-- ===== src/AppAuth/Handshake.antt =====
-- desk_app_auth_begin and desk_app_auth_verify.
use esp32_monitor.Base.{
  ℕ, Bool, true, false, not, Option, none, some, List, [], ◌∷◌, ◌++◌, ◌&&◌, ◌||◌, ltb, ◌==◌, ◌!=◌,
  if◌then◌else◌, bit_and, get_or, take, drop, length,
}
use esp32_monitor.AppAuth.{
  AuthState, ResultCode, failed, succeeded, enrollment_required, enrollment_closed, invalid_request,
  storage_failed, Md, Random, Nvs, clear_session_material, payload_version, nonce_size, hmac_size,
  hello_size, challenge_size, enrollment_challenge_size, response_size,
}
use esp32_monitor.AppAuth.Compare.{constant_time_equal}

-- "desk-console-auth-v1".
abbrev pub hmac_domain : List ℕ
hmac_domain =
    100 ∷ 101 ∷ 115 ∷ 107 ∷ 45 ∷ 99 ∷ 111 ∷ 110 ∷ 115 ∷ 111 ∷ 108 ∷ 101 ∷ 45 ∷ 97 ∷ 117 ∷ 116 ∷ 104
    ∷ 45 ∷ 118 ∷ 49 ∷ []

abbrev pub calculate_hmac : Md → AuthState → List ℕ → Option (List ℕ)
calculate_hmac md state key =
    md.hmac key (hmac_domain ∷ state.client_nonce ∷ state.device_nonce ∷ state.session_id ∷ [])

-- The bytes written to `challenge`.
abbrev pub challenge_of : AuthState → List ℕ
challenge_of state =
    payload_version ∷ (if state.pending_enrollment then 1 else 0) ∷ state.device_nonce
    ++ (state.session_id ++ (if state.pending_enrollment then state.pending_key else []))

-- From the test of the capacity on.
unfoldable pub issue_challenge :
    Random → AuthState → List ℕ → ℕ → AuthState × Option (List ℕ) × ResultCode
issue_challenge random state hello capacity =
    let required = if state.pending_enrollment then enrollment_challenge_size else challenge_size in
    let state' = record state {
      client_nonce = take nonce_size (drop 2 hello);
      device_nonce = random.nonce;
      session_id = random.session;
      challenge_active = true;
    } in
    if ltb capacity required
    then (clear_session_material state, none, invalid_request)
    else (state', some (challenge_of state'), succeeded)

-- With a request that is well formed.
unfoldable pub begin_request :
    Random → AuthState → List ℕ → Bool → ℕ → AuthState × Option (List ℕ) × ResultCode
begin_request random state hello allow_enrollment capacity =
    let cleared = clear_session_material state in
    if state.has_shared_key
    then issue_challenge random cleared hello capacity
    else if bit_and (get_or hello 1 0) 1 == 0
    then (cleared, none, enrollment_required)
    else if not allow_enrollment
    then (cleared, none, enrollment_closed)
    else issue_challenge random
        (record cleared { pending_enrollment = true; pending_key = random.key }) hello capacity

-- `hello` and `challenge` may be NULL; `challenge` is the capacity of its buffer. The pointer
-- challenge_length is not NULL, and *challenge_length is the length of the bytes returned.
unfoldable pub begin :
    Random
    → AuthState
    → Option (List ℕ)
    → Bool
    → Bool
    → Option ℕ
    → AuthState × Option (List ℕ) × ResultCode
begin random state none encrypted allow_enrollment challenge = (state, none, invalid_request)
begin random state (some hello) encrypted allow_enrollment none = (state, none, invalid_request)
begin random state (some hello) encrypted allow_enrollment (some capacity) =
    if not state.initialized
      || length hello != hello_size
      || get_or hello 0 0 != payload_version
      || not encrypted
    then (state, none, invalid_request)
    else begin_request random state hello allow_enrollment capacity

-- The key with which the response is checked.
abbrev pub session_key : AuthState → List ℕ
session_key state = if state.pending_enrollment then state.pending_key else state.shared_key

abbrev pub is_saved : Nvs → AuthState → Bool
is_saved nvs state =
    nvs.set_blob state.pending_key
    && (not state.migration_enrollment_pending || nvs.erase_key)
    && nvs.commit

-- After the response was found right: the state, the result and *enrolled.
unfoldable pub accept_response : Nvs → AuthState → AuthState × ResultCode × Bool
accept_response nvs state =
    let enrolled = record state {
      shared_key = state.pending_key;
      has_shared_key = true;
      migration_enrollment_pending = false;
    } in
    if not state.pending_enrollment
    then (clear_session_material state, succeeded, false)
    else if not (is_saved nvs state)
    then (clear_session_material state, storage_failed, false)
    else (clear_session_material enrolled, succeeded, true)

unfoldable pub check_response :
    Nvs → AuthState → Option (List ℕ) → List ℕ → AuthState × ResultCode × Bool
check_response nvs state none response = (clear_session_material state, failed, false)
check_response nvs state (some expected) response =
    if not (constant_time_equal expected (drop 2 response) hmac_size)
    then (clear_session_material state, failed, false)
    else accept_response nvs state

-- The pointer `enrolled` is not NULL.
unfoldable pub verify : Md → Nvs → AuthState → Option (List ℕ) → AuthState × ResultCode × Bool
verify md nvs state none = (clear_session_material state, invalid_request, false)
verify md nvs state (some response) =
    if not state.challenge_active
      || length response != response_size
      || get_or response 0 0 != payload_version
    then (clear_session_material state, invalid_request, false)
    else check_response nvs state (calculate_hmac md state (session_key state)) response
