-- ===== src/AppAuth/Load.antt =====
-- desk_app_auth_init: what the flash storage holds becomes the state.
use esp32_monitor.Base.{
  ℕ, Bool, true, false, not, List, ◌&&◌, ◌||◌, ◌≡◌, arith, ltb, ◌==◌, if◌then◌else◌, replicate,
  copy_to, length,
}
use esp32_monitor.AppAuth.{AuthState, clear_session_material, shared_key_size}

-- esp_err_t, as far as init tells values apart.
pub data NvsErr : Type 0 where
  nvs_ok nvs_not_found nvs_invalid_size : NvsErr
  nvs_other : (code : ℕ) → NvsErr

-- What the calls answer; the values read stand beside their status.
pub record Flash : Type 0 where
  pub nvs_open : NvsErr
  pub get_revision : NvsErr × ℕ
  pub erase_shared_key : NvsErr
  pub set_revision : NvsErr
  pub set_migration : NvsErr
  pub commit : NvsErr
  pub get_migration : NvsErr × ℕ
  pub get_shared_key : NvsErr × List ℕ

abbrev storage_revision : ℕ
storage_revision = 4

unfoldable pub is_nvs_ok : NvsErr → Bool
is_nvs_ok nvs_ok = true
is_nvs_ok _ = false

unfoldable pub is_not_found : NvsErr → Bool
is_not_found nvs_not_found = true
is_not_found _ = false

-- The last part: the key is read, and the session begins clear.
unfoldable pub load_key : Flash → AuthState → AuthState × NvsErr
unfolding is_nvs_ok is_not_found
load_key flash state =
    let (result, blob) = flash.get_shared_key in
    let without = record state {
      shared_key = replicate shared_key_size 0;
      has_shared_key = false;
      initialized = true;
    } in
    let read = record state { shared_key = copy_to state.shared_key 0 blob } in
    if is_not_found result
    then (clear_session_material without, nvs_ok)
    else if is_nvs_ok result && length blob == shared_key_size
    then (
      clear_session_material (record read { has_shared_key = true; initialized = true }),
      nvs_ok,
    )
    else if is_nvs_ok result
    then (read, nvs_invalid_size)
    else (state, result)

-- A storage of an older revision: the key is erased, and one enrollment is allowed.
unfoldable pub migrate : Flash → AuthState → AuthState × NvsErr
unfolding is_nvs_ok is_not_found load_key
migrate flash state =
    if not (is_nvs_ok flash.erase_shared_key) && not (is_not_found flash.erase_shared_key)
    then (state, flash.erase_shared_key)
    else if not (is_nvs_ok flash.set_revision)
    then (state, flash.set_revision)
    else if not (is_nvs_ok flash.set_migration)
    then (state, flash.set_migration)
    else if not (is_nvs_ok flash.commit)
    then (state, flash.commit)
    else load_key flash (record state { migration_enrollment_pending = true })

-- The variable stored_revision, which starts as 0 and is written only where the read succeeds.
unfoldable pub stored_revision : Flash → ℕ
unfolding is_nvs_ok
stored_revision flash = if is_nvs_ok flash.get_revision.0 then flash.get_revision.1 else 0

-- The same for migration_pending.
unfoldable pub keep_migration : Flash → AuthState → AuthState × NvsErr
unfolding is_nvs_ok is_not_found load_key
keep_migration flash state =
    let (result, value) = flash.get_migration in
    let pending = is_nvs_ok result && value == 1 in
    if not (is_not_found result) && not (is_nvs_ok result)
    then (state, result)
    else load_key flash (record state { migration_enrollment_pending = pending })

unfoldable pub init : Flash → AuthState → AuthState × NvsErr
unfolding is_nvs_ok is_not_found migrate keep_migration stored_revision
init flash state =
    let result = flash.get_revision.0 in
    if state.initialized
    then (state, nvs_ok)
    else if not (is_nvs_ok flash.nvs_open)
    then (state, flash.nvs_open)
    else if is_not_found result || ltb (stored_revision flash) storage_revision
    then migrate flash state
    else if not (is_nvs_ok result)
    then (state, result)
    else keep_migration flash state

-- Of a module that is not initialized and a flash that opens, a revision that cannot be read is
-- taken as an older one.
init-migrate :
    (flash : Flash) (state : AuthState)
    → state.initialized ≡ false
    → is_nvs_ok flash.nvs_open ≡ true
    → is_nvs_ok flash.get_revision.0 ≡ false
    → init flash state ≡ migrate flash state
unfolding init stored_revision
init-migrate flash state fresh opened unread = ground (arith, fresh, opened, unread)
