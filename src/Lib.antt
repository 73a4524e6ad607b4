-- ===== src/Lib.antt =====
-- The firmware of a desk console: an ESP32 with a touch screen that shows public data (weather,
-- market) from Wi-Fi and private data of a Mac over Bluetooth Low Energy, and hides the private data
-- whenever the Mac is locked, asleep, away or not authenticated. All paths are from the root of the
-- repository, and components are those of firmware/components.
--
-- How the parts work together. NimBLE calls ble_link, which puts the fragments that the Mac writes
-- together to frames, has ble_protocol check them, and posts them on a queue. The supervisor of
-- firmware/main/app_main.c takes the events off the queue, passes each frame's sequence number to the
-- window of ble_protocol, answers the handshake through app_auth, and tells the privacy machine what
-- happened; the actions that the machine returns switch the screen and the touch input and clear the
-- private data. Answers go out through the encoder of ble_protocol and the sender of ble_link.
--
-- The modules.
-- - Base, names of the libraries, tests on numbers, lists and buffers (copy_to is memcpy into a
--   buffer), casts to 8, 16 and 32 bits, and the digits of words under the bitwise operations.
-- - Privacy, components/privacy/privacy_state_machine.c. desk_privacy_dispatch is dispatch, its
--   switch is switch, desk_privacy_poll is poll. A pointer that may be NULL is an Option.
-- - Protocol, components/ble_protocol/ble_protocol.c. Crc is desk_protocol_crc16, Codec is
--   desk_protocol_encode and desk_protocol_decode, Window is desk_sequence_window_accept.
-- - BleLink, components/ble_link/ble_link.c. The state is LinkState. Reassembly is
--   handle_rx_fragment, Send is desk_ble_link_send_frame, Gap is gap_event, start_advertising,
--   on_reset and on_sync, Startup is desk_ble_link_start, desk_ble_link_receive_event, the status
--   value of gatt_access and the small public calls. Session has the steps of the link, the reports of
--   Codex among them, as a relation.
--   Host, Radio and Platform hold what FreeRTOS, NimBLE and ESP-IDF answer.
-- - AppAuth, components/app_auth/app_auth.c. Load is desk_app_auth_init, Handshake is
--   desk_app_auth_begin and desk_app_auth_verify, Compare is constant_time_equal. Md, Random and Nvs
--   hold what mbedtls, the random generator and the flash storage answer.
-- - Esp and Json, the results of ESP-IDF and the interface of cJSON, which the firmware links.
-- - AppModel, components/app_model: the records that the screen shows, desk_app_state_init,
--   desk_app_state_clear_private, the texts (Texts) and desk_app_state_load_mock (Mock).
-- - HttpFetch, components/http_fetch/http_fetch.c: http_event_handler, inflate_gzip and
--   desk_http_get_json. Client and Inflater hold what ESP-IDF and miniz answer.
-- - Network, components/network/network.c. Its root has the state, the queue and the timer of
--   reconnects, Events is network_event_handler, Control is the public calls. Wifi holds what the
--   driver answers.
-- - Storage, components/storage. LogPolicy is log_policy.c, the root is the queue, the counters and
--   desk_storage_log of storage.c, Writer is a round of storage_task, Lines the text of a line. Card
--   holds what the file system answers.
-- - BleLink.Codex, the channel of Codex in ble_link.c: its root is codex_notify_json and the two
--   senders, Requests is handle_codex_rpc, Buffer is codex_report_written.
-- - Worker, what the workers of market and weather share: WorkerEvent, their queue and their waits.
-- - Market, components/market. Tokens is find_token and read_bounded_string of market_parser.c, Parser
--   is desk_market_parse_sse and the conversions, Szse is desk_market_parse_szse, Answers and
--   Quotes are what it reads from a printed answer, Task is market.c.
--   Reals holds what strtod and llround answer, Round what one turn of market_task meets.
-- - Weather, components/weather. Values and Parser are qweather_parser.c, Configuration and Task are
--   weather.c. Numbers and Service hold what strtol, lround, printf, cJSON and the network answer,
--   WeatherRound what one turn of weather_task meets.
-- - Supervisor, firmware/main/app_main.c. Its root has the runtime record, apply_privacy_actions and
--   send_protocol_message, Payloads the handlers of JSON payloads, Frames is handle_protocol_frame,
--   Events is handle_ble_event, Actions is handle_ui_action, Loop is a pass of supervisor_task. Env
--   holds what the supervisor meets and what it calls outside of these modules.
--
-- Conventions. A number is a native natural number, and where the C code wraps, the model writes the
-- remainder. Memory is the list of its bytes. A function that changes static state takes it and
-- returns it. Each function runs as one step: those under the spin lock and the callbacks of the one
-- host task do not overlap on the fields that they share. A turn of a worker's task, with its requests,
-- is one step too: a call of the supervisor comes before it or after it. Two things are wider. The
-- loop of codex_notify_json, which waits between its reports, reads the link anew in each round, as
-- Channel gives it. And before each pass of Supervisor.Runs the host task, the events of the network
-- and the task of the log may have changed the link, the network and the log in any way.
--
-- Bounds and fuel. A frame is at most 524 bytes and a packet at most 244. The loops run over lists or
-- over a count that the code computes first (the rounds of the sender, the bytes of a comparison), so
-- no model runs out of fuel. codex_notify_json has as much fuel as it has bytes to send, and a round
-- sends one at least. A number is printed with fuel for 64 digits, which any 64-bit number has.
--
-- Not modelled: the tables of services of ble_link.c; the start-up of app_main.c and its loader of
-- the font; the SPI driver of the card; what a configuration of the weather leaves in the flash
-- for the next start. The supervisor records its calls of the workers in the order in which it
-- makes them, and their answer to a configuration is a parameter of it. Board and ui are left out,
-- which are calls of drivers and of LVGL, and so are the generated fonts, the macOS helper, which
-- is another program, and the tests and scripts.
pub mod Base
pub mod Esp
pub mod Json
pub mod AppModel
pub mod HttpFetch
pub mod Network
pub mod Privacy
pub mod Protocol
pub mod BleLink
pub mod AppAuth
pub mod Storage
pub mod Worker
pub mod Market
pub mod Weather
pub mod Supervisor
