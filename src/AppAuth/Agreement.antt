-- ===== src/AppAuth/Agreement.antt =====
-- A peer that knows the key, or is given it, gets through the handshake.
use esp32_monitor.Base.{
  ℕ, ◌+◌, ◌≤◌, ◌≡◌, refl, sym, ap, ap₂, ◌∙◌, arith, Bool, true, false, not, some, List, [], ◌∷◌,
  ◌++◌, ◌==◌, if◌then◌else◌, IsBytes, bit_and, get_or, take, drop, length, replicate, take-append,
  drop-append, drop-add-append,
}
use esp32_monitor.AppAuth.{
  AuthState, succeeded, Md, Random, Nvs, shared_key_size, session_id_size, clear_session_material,
  payload_version, nonce_size, hmac_size, hello_size, challenge_size, enrollment_challenge_size,
}
use esp32_monitor.AppAuth.Compare.{constant_time_equal-gets}
use esp32_monitor.AppAuth.Handshake.{
  hmac_domain, calculate_hmac, challenge_of, issue_challenge, begin_request, begin, session_key,
  is_saved, accept_response, check_response, verify,
}

-- A hello over an encrypted link that the device answers with a challenge.
pub record CanBegin (state : AuthState) (hello : List ℕ) (allow : Bool) (capacity : ℕ)
    : Type 0 where
  pub is_initialized : state.initialized ≡ true
  pub sized : length hello ≡ hello_size
  pub versioned : get_or hello 0 0 ≡ payload_version
  pub enrolls : state.has_shared_key ≡ false → (bit_and (get_or hello 1 0) 1 ≡ 1) × (allow ≡ true)
  pub room : enrollment_challenge_size ≤ capacity

-- The state in which the challenge is open.
abbrev pub offered : Random → AuthState → List ℕ → AuthState
offered random state hello = record (clear_session_material state) {
  pending_enrollment = not state.has_shared_key;
  pending_key = if state.has_shared_key then replicate shared_key_size 0 else random.key;
  client_nonce = take nonce_size (drop 2 hello);
  device_nonce = random.nonce;
  session_id = random.session;
  challenge_active = true;
}

begin_offers :
    (random : Random) (state : AuthState) (hello : List ℕ) (allow : Bool) (capacity : ℕ)
    → CanBegin state hello allow capacity
    → begin random state (some hello) true allow (some capacity)
      ≡ (offered random state hello, some (challenge_of (offered random state hello)), succeeded)
unfolding begin begin_request issue_challenge
begin_offers random state hello allow capacity h =
    ground (arith, h.is_initialized, h.sized, h.versioned, h.enrolls, h.room)

-- What a peer computes from its hello, the challenge and the key it may already have.
abbrev pub peer_key : List ℕ → List ℕ → List ℕ
peer_key known challenge =
    if get_or challenge 1 0 == 1 then drop challenge_size challenge else known

abbrev pub peer_parts : List ℕ → List ℕ → List (List ℕ)
peer_parts hello challenge =
    hmac_domain
    ∷ take nonce_size (drop 2 hello)
    ∷ take nonce_size (drop 2 challenge)
    ∷ take session_id_size (drop (2 + nonce_size) challenge)
    ∷ []

challenge_fields :
    (state : AuthState)
    → length state.device_nonce ≡ nonce_size
    → length state.session_id ≡ session_id_size
    → (take nonce_size (drop 2 (challenge_of state)) ≡ state.device_nonce)
      × (take session_id_size (drop (2 + nonce_size) (challenge_of state)) ≡ state.session_id)
      × (drop challenge_size (challenge_of state)
          ≡ (if state.pending_enrollment then state.pending_key else []))
challenge_fields state n s =
    let key = if state.pending_enrollment then state.pending_key else [] in
    (
      take-append nonce_size state.device_nonce (state.session_id ++ key) (sym n),
      ap (take session_id_size)
            (drop-append nonce_size state.device_nonce (state.session_id ++ key) (sym n))
          ∙ take-append session_id_size state.session_id key (sym s),
      drop-add-append session_id_size 24 state.device_nonce (state.session_id ++ key)
            (omega (arith, n))
          ∙ drop-append session_id_size state.session_id key (sym s),
    )

peer_key-session_key :
    (random : Random) (state : AuthState) (hello : List ℕ)
    → length random.nonce ≡ nonce_size
    → length random.session ≡ session_id_size
    → let state' = offered random state hello in
      peer_key state.shared_key (challenge_of state') ≡ session_key state'
peer_key-session_key random state hello n s =
    let fields = challenge_fields (offered random state hello) n s in ground (arith, fields.2)

-- After a hello that may begin, a peer that answers with the HMAC of what it sent and read, under
-- the key it knows or was given in the challenge, is accepted, where a new key can be saved. Each
-- nonce has its size, and the HMAC is 32 bytes.
pub verify-begin :
    (md : Md) (nvs : Nvs) (random : Random) (state : AuthState) (hello mac : List ℕ) (allow : Bool)
    (capacity : ℕ)
    → length random.nonce ≡ nonce_size
    → length random.session ≡ session_id_size
    → CanBegin state hello allow capacity
    → ((pending : AuthState) → is_saved nvs pending ≡ true)
    → length mac ≡ hmac_size
    → IsBytes mac
    → let state' = offered random state hello in
      let challenge = challenge_of state' in
      (begin random state (some hello) true allow (some capacity)
        ≡ (state', some challenge, succeeded))
      × (md.hmac (peer_key state.shared_key challenge) (peer_parts hello challenge) ≡ some mac
          → (verify md nvs state' (some (payload_version ∷ 0 ∷ mac))).1 ≡ succeeded)
unfolding verify check_response accept_response
verify-begin md nvs random state hello mac allow capacity n s h saved size bytes =
    let state' = offered random state hello in
    let (nonce, session, key) = challenge_fields state' n s in
    let same = (constant_time_equal-gets mac mac bytes bytes hmac_size).1 refl in
    (
      begin_offers random state hello allow capacity h,
      λ e.
          let answer : calculate_hmac md state' (session_key state') ≡ some mac =
            ap (calculate_hmac md state') (sym (peer_key-session_key random state hello n s))
            ∙ ap₂
                (λ a b.
                  md.hmac (peer_key state.shared_key (challenge_of state'))
                    (hmac_domain ∷ take nonce_size (drop 2 hello) ∷ a ∷ b ∷ []))
                (sym nonce) (sym session)
            ∙ e in
          ground (arith, answer, same, saved state', size),
    )
