-- ===== src/BleLink/Codex/Requests.antt =====
-- The requests of Codex: handle_codex_rpc and the status that a light stands for.
use esp32_monitor.Base.{
  ℕ, ◌-◌, ◌/◌, Bool, true, false, not, Option, none, some, List, [], ◌∷◌, ◌&&◌, ◌||◌, ltb, leb,
  ◌==◌, if◌then◌else◌, u8, text, same_bytes,
}
use esp32_monitor.Json.{Double, Kind, string, Cjson, as_number, as_string, as_array}
use esp32_monitor.BleLink.{
  Host, LinkState, SlotStatus, unassigned, idle, running, completed, waiting, failed,
  codex_task_status, event_of, post_event,
}
use esp32_monitor.BleLink.Codex.{Channel, codex_notify_json}

-- What a response says.
pub data RpcResponse : Type 0 where
  version_response device_status success method_not_found : RpcResponse

-- What the requests use of C and cJSON: the conversion of a double to uint32_t, the comparison of
-- a double with 0.01, and the printed response to the node of an identifier, or `none` for NULL.
pub record Rpc (Node : Type 0) : Type 0 where
  pub cjson : Cjson Node
  pub to_u32 : Double → ℕ
  pub is_dim : Double → Bool
  pub print_response : Option Node → RpcResponse → Option (List ℕ)

abbrev pub maximum_of : ℕ → ℕ → ℕ → ℕ
maximum_of red green blue =
    if ltb green red
    then if ltb blue red then red else blue
    else if ltb blue green
    then green
    else blue

abbrev pub minimum_of : ℕ → ℕ → ℕ → ℕ
minimum_of red green blue =
    if ltb red green
    then if ltb red blue then red else blue
    else if ltb green blue
    then green
    else blue

-- The status of a light of three channels that is on.
unfoldable pub status_of_channels : ℕ → ℕ → ℕ → SlotStatus
status_of_channels red green blue =
    if ltb (u8 (maximum_of red green blue - minimum_of red green blue)) 32
    then idle
    else if ltb 180 red && ltb green 150
    then failed
    else if ltb 170 red && ltb 100 green && ltb blue 120
    then waiting
    else if ltb red green && ltb blue green
    then completed
    else if leb red blue && leb green blue
    then running
    else idle

abbrev pub is_off : Option (List ℕ) → Bool
is_off none = false
is_off (some effect) = same_bytes effect (text "off")

-- With whether the brightness is at most 0.01.
unfoldable pub codex_status_from_light : ℕ → Bool → Option (List ℕ) → SlotStatus
codex_status_from_light color dim effect =
    if dim || is_off effect
    then unassigned
    else status_of_channels (u8 (color / 65536)) (u8 (color / 256)) (u8 color)

unfoldable pub post_codex_task_status : Host → ℕ → SlotStatus → LinkState → LinkState
post_codex_task_status host slot status link =
    post_event host link
      (record (event_of link codex_task_status) { codex_slot = slot; codex_status = status })

module _ {Node : Type 0} (rpc : Rpc Node) (host : Host) where
  -- valueint of a number that is from 0 to 5 there.
  abbrev pub slot_of : Option Double → Option ℕ
  slot_of none = none
  slot_of (some value) =
      if not value.finite || value.negative && not (value.whole == 0) || not (ltb value.whole 6)
      then none
      else some value.whole

  abbrev pub color_of : Option Double → ℕ
  color_of none = 0
  color_of (some value) = rpc.to_u32 value

  abbrev pub is_dim_light : Option Double → Bool
  is_dim_light none = true
  is_dim_light (some value) = rpc.is_dim value

  abbrev pub effect_of_kind : Kind Node → Option (List ℕ)
  effect_of_kind (string value) = value
  effect_of_kind _ = some (text "off")

  abbrev pub effect_of : Option Node → Option (List ℕ)
  effect_of none = some (text "off")
  effect_of (some node) = effect_of_kind (rpc.cjson.kind node)

  abbrev pub post_light : Node → Option ℕ → LinkState → LinkState
  post_light node none link = link
  post_light node (some slot) link =
      post_codex_task_status host slot
        (codex_status_from_light (color_of (as_number rpc.cjson (rpc.cjson.member node (text "c"))))
          (is_dim_light (as_number rpc.cjson (rpc.cjson.member node (text "b"))))
          (effect_of (rpc.cjson.member node (text "e"))))
        link

  -- The loop over the lights.
  unfoldable pub post_lights : List Node → LinkState → LinkState
  post_lights [] link = link
  post_lights (node ∷ nodes) link =
      post_lights nodes
        (post_light node (slot_of (as_number rpc.cjson (rpc.cjson.member node (text "id")))) link)

  abbrev pub method_of : Option (List ℕ) → List ℕ
  method_of none = []
  method_of (some method) = method

  abbrev pub send_response : Channel → LinkState → Option (List ℕ) → LinkState × List (List ℕ)
  send_response channel link none = (link, [])
  send_response channel link (some json) = (link, (codex_notify_json host channel link json).0)

  abbrev pub is_plain_method : List ℕ → Bool
  is_plain_method method =
      same_bytes method (text "v.oai.rgbcfg")
      || same_bytes method (text "lights.preview")
      || same_bytes method (text "host.focused_app")

  -- What is answered to a method, where params is an array or not.
  abbrev pub response_to : List ℕ → Option (List Node) → RpcResponse
  response_to method params =
      if same_bytes method (text "sys.version")
      then version_response
      else if same_bytes method (text "device.status")
      then device_status
      else if is_plain_method method
      then success
      else elim params [
        | none ↦ method_not_found
        | some nodes ↦
            if same_bytes method (text "v.oai.thstatus") then success else method_not_found
      ]

  abbrev pub lights_of : List ℕ → Option (List Node) → List Node
  lights_of method none = []
  lights_of method (some nodes) = if same_bytes method (text "v.oai.thstatus") then nodes else []

  -- The link after a request, and the reports of the response.
  unfoldable pub handle_codex_rpc : Channel → Node → LinkState → LinkState × List (List ℕ)
  handle_codex_rpc channel request link =
      let method = method_of (as_string rpc.cjson (rpc.cjson.member request (text "method"))) in
      let params = as_array rpc.cjson (rpc.cjson.member request (text "params")) in
      send_response channel (post_lights (lights_of method params) link)
        (rpc.print_response (rpc.cjson.member request (text "id")) (response_to method params))
