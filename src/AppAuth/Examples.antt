-- ===== src/AppAuth/Examples.antt =====
-- Handshakes with a stand-in for the HMAC, and the theorems there.
use mathlib.Core.Option.{some-injective}
use mathlib.Core.Path.{subst}
use esp32_monitor.Base.{
  ℕ, ◌%◌, ◌≡◌, refl, arith, true, false, some, List, [], ◌∷◌, IsBytes, get_or, length, replicate,
}
use esp32_monitor.AppAuth.{
  AuthState, Md, Random, Nvs, succeeded, invalid_request, failed, response_size, payload_version,
}
use esp32_monitor.AppAuth.Handshake.{
  challenge_of, begin, verify, check_response, accept_response, is_saved,
}
use esp32_monitor.AppAuth.Compare.{constant_time_equal, differences}
use esp32_monitor.AppAuth.Load.{Flash, nvs_ok, nvs_other, nvs_not_found}
use esp32_monitor.AppAuth.Outcomes.{IsCleared, Proves, verify_once, verify-Proves, verify_enrolls}
use esp32_monitor.AppAuth.Agreement.{offered, peer_key, peer_parts, verify-begin}

abbrev md : Md
md = record { hmac = λ key parts. some (get_or key 0 0 % 256 ∷ replicate 31 7) }

md-IsBytes :
    (key : List ℕ) (parts : List (List ℕ)) (out : List ℕ)
    → md.hmac key parts ≡ some out
    → IsBytes out
md-IsBytes key parts out e =
    subst IsBytes (some-injective (get_or key 0 0 % 256 ∷ replicate 31 7) out e) (omega arith)

abbrev nvs : Nvs
nvs = record { set_blob = λ key. true; erase_key = true; commit = true }

abbrev random : Random
random = record { key = replicate 32 9; nonce = replicate 16 5; session = replicate 8 6 }

-- No key is enrolled yet.
abbrev unenrolled : AuthState
unenrolled = record {
  initialized = true;
  has_shared_key = false;
  migration_enrollment_pending = true;
  challenge_active = false;
  pending_enrollment = false;
  shared_key = replicate 32 0;
  pending_key = replicate 32 0;
  client_nonce = replicate 16 0;
  device_nonce = replicate 16 0;
  session_id = replicate 8 0;
}

-- A hello that asks for enrollment.
abbrev hello : List ℕ
hello = 1 ∷ 1 ∷ replicate 16 3

abbrev mac : List ℕ
mac = 9 ∷ replicate 31 7

abbrev challenged : AuthState
challenged = offered random unenrolled hello

enrolls : (verify md nvs challenged (some (1 ∷ 0 ∷ mac))).2 ≡ true
unfolding verify check_response accept_response constant_time_equal differences
enrolls = refl

wrong_response : (verify md nvs challenged (some (1 ∷ 0 ∷ 8 ∷ replicate 31 7))).1 ≡ failed
unfolding verify check_response accept_response constant_time_equal differences
wrong_response = refl

right_response : (verify md nvs challenged (some (1 ∷ 0 ∷ mac))).1 ≡ succeeded
unfolding verify check_response accept_response constant_time_equal differences
right_response = refl

verify-begin_example :
    (begin random unenrolled (some hello) true true (some 58)
      ≡ (challenged, some (challenge_of challenged), succeeded))
    × (md.hmac
            (peer_key unenrolled.shared_key (challenge_of challenged))
            (peer_parts hello (challenge_of challenged))
          ≡ some mac
        → (verify md nvs challenged (some (payload_version ∷ 0 ∷ mac))).1 ≡ succeeded)
verify-begin_example =
    verify-begin md nvs random unenrolled hello mac true 58 refl refl
      (record {
        is_initialized = refl;
        sized = refl;
        versioned = refl;
        enrolls = λ _. (refl, refl);
        room = omega arith;
      })
      (λ pending. ground arith) refl (omega arith)

verify_once_example :
    let state' = (verify md nvs challenged (some (1 ∷ 0 ∷ mac))).0 in
    IsCleared state' × ((verify md nvs state' (some (1 ∷ 0 ∷ mac))).1 ≡ invalid_request)
verify_once_example = verify_once md nvs nvs challenged (some (1 ∷ 0 ∷ mac)) (some (1 ∷ 0 ∷ mac))

verify-Proves_example :
    (challenged.challenge_active ≡ true)
    × (length (1 ∷ 0 ∷ mac) ≡ response_size)
    × Proves md challenged (1 ∷ 0 ∷ mac)
verify-Proves_example =
    verify-Proves md nvs challenged (1 ∷ 0 ∷ mac) md-IsBytes (omega arith) right_response

verify_enrolls_example :
    let (state', code, enrolled) = verify md nvs challenged (some (1 ∷ 0 ∷ mac)) in
    (enrolled ≡ false
      → (state'.shared_key ≡ challenged.shared_key)
        × (state'.has_shared_key ≡ challenged.has_shared_key))
    × (enrolled ≡ true
        → (code ≡ succeeded)
          × (challenged.pending_enrollment ≡ true)
          × (is_saved nvs challenged ≡ true)
          × (state'.shared_key ≡ challenged.pending_key)
          × (state'.has_shared_key ≡ true))
verify_enrolls_example = verify_enrolls md nvs challenged (some (1 ∷ 0 ∷ mac))

-- The revision cannot be read, although a current one is stored and a key is enrolled.
abbrev unreadable : Flash
unreadable = record {
  nvs_open = nvs_ok;
  get_revision = (nvs_other 0x1105, 4);
  erase_shared_key = nvs_ok;
  set_revision = nvs_ok;
  set_migration = nvs_ok;
  commit = nvs_ok;
  get_migration = (nvs_not_found, 0);
  get_shared_key = (nvs_not_found, []);
}

abbrev booting : AuthState
booting = record unenrolled { initialized = false; migration_enrollment_pending = false }
