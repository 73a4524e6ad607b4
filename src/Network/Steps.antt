-- ===== src/Network/Steps.antt =====
-- What holds of the station through any calls and callbacks.
use esp32_monitor.Base.{ℕ, arith, false, Option, none, List}
use esp32_monitor.Network.{
  NetworkState, NetworkEvent, Wifi, WifiConfig, no_timer, reconnect_timer_callback,
}
use esp32_monitor.Network.Events.{WifiEvent, network_event_handler}
use esp32_monitor.Network.Control.{Setup, start, provision, reconnect, receive_event}
use esp32_monitor.Network.Kept.{IsNetwork, handler-IsNetwork, callback-IsNetwork}
use esp32_monitor.Network.Calls.{
  provision-IsNetwork, reconnect-IsNetwork, start-IsNetwork, receive_event-IsNetwork,
}

-- The static variables before desk_network_start, with what the driver has stored.
abbrev pub initial_network : WifiConfig → NetworkState
initial_network configuration = record {
  event_queue = none;
  timer = no_timer;
  started = false;
  credentials_available = false;
  station_connected = false;
  provisioning_disconnect_pending = false;
  exhausted_notified = false;
  retry_count = 0;
  last_disconnect_reason = 0;
  configuration = configuration;
  connects = 0;
}

-- The station after a call or a callback, in which the environment may answer as it likes.
pub data Reached : NetworkState → Type 0 where
  initial : (configuration : WifiConfig) → Reached (initial_network configuration)
  booted :
      (wifi : Wifi) (setup : Setup) (state : NetworkState)
      → Reached state
      → Reached (start wifi setup state).0
  handled :
      (wifi : Wifi) (event : WifiEvent) (state : NetworkState)
      → Reached state
      → Reached (network_event_handler wifi event state)
  fired :
      (wifi : Wifi) (state : NetworkState)
      → Reached state
      → Reached (reconnect_timer_callback wifi state)
  provisioned :
      (wifi : Wifi) (ssid password : List ℕ) (state : NetworkState)
      → Reached state
      → Reached (provision wifi ssid password state).0
  reconnected :
      (wifi : Wifi) (state : NetworkState) → Reached state → Reached (reconnect wifi state).0
  received :
      (wifi : Wifi) (receive : List NetworkEvent → Option (NetworkEvent × List NetworkEvent))
      (state : NetworkState)
      → Reached state
      → Reached (receive_event receive state).0

-- After any calls and callbacks from the initial state on, a running timer fires after one second
-- at least and one minute at most, the count of attempts is a 32-bit number, and the flag
-- exhausted_notified is set only where the count is five or more.
pub Reached-IsNetwork : (state : NetworkState) → Reached state → IsNetwork state
Reached-IsNetwork _ (initial configuration) = record {
  timely = tt;
  counted = omega arith;
  told = λ e. absurd (ground (arith, e));
}
Reached-IsNetwork _ (booted wifi setup state r) =
    start-IsNetwork wifi setup state (Reached-IsNetwork state r)
Reached-IsNetwork _ (handled wifi event state r) =
    handler-IsNetwork wifi event state (Reached-IsNetwork state r)
Reached-IsNetwork _ (fired wifi state r) = callback-IsNetwork wifi state (Reached-IsNetwork state r)
Reached-IsNetwork _ (provisioned wifi ssid password state r) =
    provision-IsNetwork wifi ssid password state (Reached-IsNetwork state r)
Reached-IsNetwork _ (reconnected wifi state r) =
    reconnect-IsNetwork wifi state (Reached-IsNetwork state r)
Reached-IsNetwork _ (received wifi receive state r) =
    receive_event-IsNetwork receive state.event_queue wifi state (Reached-IsNetwork state r)
