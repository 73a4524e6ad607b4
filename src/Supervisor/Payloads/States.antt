-- ===== src/Supervisor/Payloads/States.antt =====
-- The handlers of a system state, a control layout and a media state.
use esp32_monitor.Base.{
  ℕ, ◌+◌, Bool, true, not, Option, some, List, ltb, leb, ◌==◌, ◌&&◌, ◌||◌, if◌then◌else◌, length,
  text, bounded, u8, u16, u32,
}
use esp32_monitor.Base.Options.{◌>>=◌, ◌>>◌, require}
use esp32_monitor.Json.{Cjson, get_item, as_string, as_boolean}
use esp32_monitor.AppModel.{AppState, SystemState, MediaState, revised}
use esp32_monitor.Supervisor.Payloads.{json_read_u32, parse_json_object, uint8_max, uint32_max}

-- The sequence number after a sample, which is never 0.
abbrev pub next_sample : ℕ → ℕ
next_sample sequence = if u32 (sequence + 1) == 0 then 1 else u32 (sequence + 1)

abbrev pub system_of : ℕ → ℕ → ℕ → ℕ → ℕ → ℕ → ℕ → SystemState
system_of sample cpu_x10 memory_x10 disk_free up_kbps down_kbps battery = record {
  system_valid = true;
  sample_sequence = next_sample sample;
  cpu_x10_percent = u16 cpu_x10;
  memory_x10_percent = u16 memory_x10;
  disk_free_gb = disk_free;
  network_up_kbps = up_kbps;
  network_down_kbps = down_kbps;
  battery_percent = u8 battery;
}

abbrev pub media_of : Bool → Bool → Bool → Bool → ℕ → ℕ → ℕ → List ℕ → List ℕ → List ℕ → MediaState
media_of metadata is_playing is_title_hidden is_muted volume position duration song singer player =
    record {
      media_valid = true;
      metadata_available = metadata;
      playing = is_playing;
      title_hidden = is_title_hidden;
      muted = is_muted;
      volume_percent = u8 volume;
      position_seconds = position;
      duration_seconds = duration;
      title = bounded 96 song;
      artist = bounded 64 singer;
      source = bounded 32 player;
    }

module _ {Node : Type 0} (cjson : Cjson Node) where
  abbrev pub string_item : Node → List ℕ → Option (List ℕ)
  string_item node name = as_string cjson (get_item cjson (some node) name)

  abbrev pub boolean_item : Node → List ℕ → Option Bool
  boolean_item node name = as_boolean cjson (get_item cjson (some node) name)

  unfoldable pub read_system : Node → ℕ → Option SystemState
  read_system root sample = do
    cpu_x10 ← json_read_u32 cjson root (text "cpu10") 1000
    memory_x10 ← json_read_u32 cjson root (text "memory10") 1000
    disk_free ← json_read_u32 cjson root (text "diskFreeGB") uint32_max
    up_kbps ← json_read_u32 cjson root (text "upKbps") uint32_max
    down_kbps ← json_read_u32 cjson root (text "downKbps") uint32_max
    battery ← json_read_u32 cjson root (text "battery") uint8_max
    require (leb battery 100 || battery == uint8_max)
    some (system_of sample cpu_x10 memory_x10 disk_free up_kbps down_kbps battery)

  unfoldable pub apply_system_state_payload : List ℕ → AppState → Option AppState
  apply_system_state_payload payload state = do
    root ← parse_json_object cjson payload
    next ← read_system root state.system.sample_sequence
    some (revised (record state { system = next }))

  abbrev pub with_control : List ℕ → ℕ → AppState → AppState
  with_control app actions state =
      revised (record state {
        control = record { active_app = bounded 32 app; action_count = u8 actions };
      })

  unfoldable pub apply_control_layout_payload : List ℕ → AppState → Option AppState
  apply_control_layout_payload payload state = do
    root ← parse_json_object cjson payload
    app ← string_item root (text "activeApp")
    require (not (length app == 0) && ltb (length app) 32)
    actions ← json_read_u32 cjson root (text "actionCount") 6
    some (with_control app actions state)

  abbrev pub media_texts_fit : List ℕ → List ℕ → List ℕ → Bool
  media_texts_fit title artist source =
      not (length title == 0)
      && not (length source == 0)
      && ltb (length title) 96
      && ltb (length artist) 64
      && ltb (length source) 32

  unfoldable pub read_media : Node → Option MediaState
  read_media root = do
    is_valid ← boolean_item root (text "valid")
    require is_valid
    metadata ← boolean_item root (text "metadataAvailable")
    is_playing ← boolean_item root (text "playing")
    is_title_hidden ← boolean_item root (text "titleHidden")
    is_muted ← boolean_item root (text "muted")
    song ← string_item root (text "title")
    singer ← string_item root (text "artist")
    player ← string_item root (text "source")
    require (media_texts_fit song singer player)
    volume ← json_read_u32 cjson root (text "volume") 100
    position ← json_read_u32 cjson root (text "position") uint32_max
    duration ← json_read_u32 cjson root (text "duration") uint32_max
    require (duration == 0 || leb position duration)
    some (
        media_of metadata is_playing is_title_hidden is_muted volume position duration song singer
          player)

  unfoldable pub apply_media_state_payload : List ℕ → AppState → Option AppState
  apply_media_state_payload payload state = do
    root ← parse_json_object cjson payload
    next ← read_media root
    some (revised (record state { media = next }))
