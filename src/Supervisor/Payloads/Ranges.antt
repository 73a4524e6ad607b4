-- ===== src/Supervisor/Payloads/Ranges.antt =====
-- The values that the payloads of the Mac can put into the application's state.
use esp32_monitor.Base.{
  ℕ, ◌≤◌, ◌<◌, ◌≡◌, ◌⊎◌, arith, Bool, true, not, Option, none, some, List, ◌&&◌, ◌||◌, ltb, leb,
  ◌==◌, if_cases, if_either, length, length-take, text,
}
use esp32_monitor.Base.Options.{◌>>=◌, ◌>>◌, require, Every, >>=-Every, require-Every, any-Every}
use esp32_monitor.Json.{Cjson, Double, is_below_zero, is_above, as_number, get_item}
use esp32_monitor.AppModel.{AppState, SystemState, ControlState, MediaState, revised}
use esp32_monitor.Supervisor.Payloads.{
  json_read_u32, integer_up_to, parse_json_object, uint8_max, uint32_max,
}
use esp32_monitor.Supervisor.Payloads.States.{
  system_of, with_control, media_of, read_system, apply_system_state_payload,
  apply_control_layout_payload, read_media, apply_media_state_payload, string_item, boolean_item,
  media_texts_fit,
}

pub record SystemInRange (system : SystemState) : Type 0 where
  pub cpu : system.cpu_x10_percent ≤ 1000
  pub memory : system.memory_x10_percent ≤ 1000
  pub battery : (system.battery_percent ≤ 100) ⊎ (system.battery_percent ≡ 255)

pub record ControlInRange (control : ControlState) : Type 0 where
  pub app_fits : length control.active_app < 32
  pub actions : control.action_count ≤ 6

pub record MediaInRange (media : MediaState) : Type 0 where
  pub volume : media.volume_percent ≤ 100
  pub position : (media.duration_seconds ≡ 0) ⊎ (media.position_seconds ≤ media.duration_seconds)
  pub title_fits : length media.title < 96
  pub artist_fits : length media.artist < 64
  pub source_fits : length media.source < 32

-- The parts of the state that payloads of numbers and of texts write.
pub record InRange (state : AppState) : Type 0 where
  pub system_in_range : SystemInRange state.system
  pub control_in_range : ControlInRange state.control
  pub media_in_range : MediaInRange state.media

module _ {Node : Type 0} (cjson : Cjson Node) where
  integer_up_to-Every :
      (m : ℕ) (value : Option Double) → Every (λ (v : ℕ). v ≤ m) (integer_up_to cjson m value)
  integer_up_to-Every m none = tt
  integer_up_to-Every m (some value) =
      let P : Option ℕ → Type 0 = λ o. Every (λ (v : ℕ). v ≤ m) o in
      if_cases P (is_below_zero value || is_above value m) (λ e. tt)
        (λ e. if_either P value.fraction tt (ground (arith, e)))

  json_read_u32-Every :
      (node : Node) (name : List ℕ) (m : ℕ)
      → Every (λ (v : ℕ). v ≤ m) (json_read_u32 cjson node name m)
  unfolding json_read_u32
  json_read_u32-Every node name m =
      integer_up_to-Every m (as_number cjson (get_item cjson (some node) name))

  system_of-InRange :
      (sample cpu memory disk up down battery : ℕ)
      → cpu ≤ 1000
      → memory ≤ 1000
      → battery ≤ 255
      → (leb battery 100 || battery == uint8_max) ≡ true
      → SystemInRange (system_of sample cpu memory disk up down battery)
  system_of-InRange sample cpu memory disk up down battery c m b e = record {
    cpu = ground (arith, c);
    memory = ground (arith, m);
    battery = ground (arith, b, e);
  }

  read_system-InRange :
      (root : Node) (sample : ℕ) → Every SystemInRange (read_system cjson root sample)
  unfolding read_system
  read_system-InRange root sample =
      let P : SystemState → Type 0 = λ s. SystemInRange s in
      let Up : ℕ → ℕ → Type 0 = λ m v. v ≤ m in
      let reads = json_read_u32-Every root in
      >>=-Every (Up 1000) P _ _ (reads (text "cpu10") 1000) (λ cpu c.
        >>=-Every (Up 1000) P _ _ (reads (text "memory10") 1000) (λ memory m.
          >>=-Every (Up uint32_max) P _ _ (reads (text "diskFreeGB") uint32_max) (λ disk d.
            >>=-Every (Up uint32_max) P _ _ (reads (text "upKbps") uint32_max) (λ up u.
              >>=-Every (Up uint32_max) P _ _ (reads (text "downKbps") uint32_max) (λ down w.
                >>=-Every (Up 255) P _ _ (reads (text "battery") 255) (λ battery b.
                  require-Every P (leb battery 100 || battery == uint8_max)
                    (some (system_of sample cpu memory disk up down battery))
                    (system_of-InRange sample cpu memory disk up down battery c m b)))))))

  pub apply_system-InRange :
      (payload : List ℕ) (state : AppState)
      → InRange state
      → Every InRange (apply_system_state_payload cjson payload state)
  unfolding apply_system_state_payload
  apply_system-InRange payload state h =
      let P : AppState → Type 0 = λ s. InRange s in
      >>=-Every (λ (n : Node). Unit {0}) P _ _ (any-Every (parse_json_object cjson payload))
        (λ root n.
          >>=-Every (λ (s : SystemState). SystemInRange s) P _
            (λ (next : SystemState). some (revised (record state { system = next })))
            (read_system-InRange root state.system.sample_sequence)
            (λ next s. record {
              system_in_range = s;
              control_in_range = h.control_in_range;
              media_in_range = h.media_in_range;
            }))

  with_control-InRange :
      (app : List ℕ) (actions : ℕ) (state : AppState)
      → InRange state
      → actions ≤ 6
      → InRange (with_control cjson app actions state)
  with_control-InRange app actions state h a = record {
    system_in_range = h.system_in_range;
    control_in_range = record {
      app_fits = omega (arith, length-take 31 app);
      actions = omega (arith, a);
    };
    media_in_range = h.media_in_range;
  }

  pub apply_control-InRange :
      (payload : List ℕ) (state : AppState)
      → InRange state
      → Every InRange (apply_control_layout_payload cjson payload state)
  unfolding apply_control_layout_payload
  apply_control-InRange payload state h =
      let P : AppState → Type 0 = λ s. InRange s in
      >>=-Every (λ (n : Node). Unit {0}) P _ _ (any-Every (parse_json_object cjson payload))
        (λ root n.
          >>=-Every (λ (s : List ℕ). Unit {0}) P _ _
            (any-Every (string_item cjson root (text "activeApp")))
            (λ app s. require-Every P (not (length app == 0) && ltb (length app) 32) _ (λ e.
              >>=-Every (λ (v : ℕ). v ≤ 6) P (json_read_u32 cjson root (text "actionCount") 6)
                (λ (actions : ℕ). some (with_control cjson app actions state))
                (json_read_u32-Every root (text "actionCount") 6)
                (λ actions a. with_control-InRange app actions state h a))))

  media_of-InRange :
      (metadata is_playing is_title_hidden is_muted : Bool) (volume position duration : ℕ)
      (song singer player : List ℕ)
      → volume ≤ 100
      → (duration == 0 || leb position duration) ≡ true
      → MediaInRange (
          media_of metadata is_playing is_title_hidden is_muted volume position duration song singer
            player)
  media_of-InRange _ _ _ _ volume position duration song singer player v e = record {
    volume = ground (arith, v);
    position = ground (arith, e);
    title_fits = omega (arith, length-take 95 song);
    artist_fits = omega (arith, length-take 63 singer);
    source_fits = omega (arith, length-take 31 player);
  }

  -- The numbers of a media state, once its other items are read.
  numbers-InRange :
      (root : Node) (metadata is_playing is_title_hidden is_muted : Bool)
      (song singer player : List ℕ)
      → Every MediaInRange (
          json_read_u32 cjson root (text "volume") 100 >>= λ (volume : ℕ).
          json_read_u32 cjson root (text "position") uint32_max >>= λ (position : ℕ).
          json_read_u32 cjson root (text "duration") uint32_max >>= λ (duration : ℕ).
          require (duration == 0 || leb position duration)
          >> some (
              media_of metadata is_playing is_title_hidden is_muted volume position duration song
                singer player))
  numbers-InRange root metadata is_playing is_title_hidden is_muted song singer player =
      let P : MediaState → Type 0 = λ s. MediaInRange s in
      let Up : ℕ → ℕ → Type 0 = λ m v. v ≤ m in
      let reads = json_read_u32-Every root in
      >>=-Every (Up 100) P _ _ (reads (text "volume") 100) (λ volume v.
        >>=-Every (Up uint32_max) P _ _ (reads (text "position") uint32_max) (λ position p.
          >>=-Every (Up uint32_max) P _ _ (reads (text "duration") uint32_max) (λ duration d.
            require-Every P (duration == 0 || leb position duration)
              (some (
                media_of metadata is_playing is_title_hidden is_muted volume position duration song
                  singer player))
              (media_of-InRange metadata is_playing is_title_hidden is_muted volume position
                duration song singer player v))))

  read_media-InRange : (root : Node) → Every MediaInRange (read_media cjson root)
  unfolding read_media
  read_media-InRange root =
      let P : MediaState → Type 0 = λ s. MediaInRange s in
      let B : Bool → Type 0 = λ b. Unit {0} in
      let T : List ℕ → Type 0 = λ b. Unit {0} in
      let flags = λ (name : List ℕ). any-Every (boolean_item cjson root name) in
      let strings = λ (name : List ℕ). any-Every (string_item cjson root name) in
      >>=-Every B P _ _ (flags (text "valid")) (λ valid u0. require-Every P valid _ (λ e.
        >>=-Every B P _ _ (flags (text "metadataAvailable")) (λ metadata u1.
          >>=-Every B P _ _ (flags (text "playing")) (λ is_playing u2.
            >>=-Every B P _ _ (flags (text "titleHidden")) (λ is_hidden u3.
              >>=-Every B P _ _ (flags (text "muted")) (λ is_muted u4.
                >>=-Every T P _ _ (strings (text "title")) (λ song u5.
                  >>=-Every T P _ _ (strings (text "artist")) (λ singer u6.
                    >>=-Every T P _ _ (strings (text "source")) (λ player u7.
                      require-Every P (media_texts_fit cjson song singer player) _ (λ e'.
                        numbers-InRange root metadata is_playing is_hidden is_muted song singer
                          player))))))))))

  pub apply_media-InRange :
      (payload : List ℕ) (state : AppState)
      → InRange state
      → Every InRange (apply_media_state_payload cjson payload state)
  unfolding apply_media_state_payload
  apply_media-InRange payload state h =
      let P : AppState → Type 0 = λ s. InRange s in
      >>=-Every (λ (n : Node). Unit {0}) P _ _ (any-Every (parse_json_object cjson payload))
        (λ root n.
          >>=-Every (λ (s : MediaState). MediaInRange s) P _
            (λ (next : MediaState). some (revised (record state { media = next })))
            (read_media-InRange root)
            (λ next s. record {
              system_in_range = h.system_in_range;
              control_in_range = h.control_in_range;
              media_in_range = s;
            }))
