-- ===== src/BleLink/Session/Reports.antt =====
-- The reports that Codex writes and the link: codex_report_written and what it calls.
use esp32_monitor.Base.{
  ℕ, ◌+◌, ap, arith, Bool, not, Option, none, some, List, [], ◌∷◌, ◌++◌, ◌||◌, ltb, ◌==◌, ◌!=◌,
  if_either, text, length as list_length,
}
use esp32_monitor.Json.{as_number, as_string, as_array}
use esp32_monitor.BleLink.{Host, SlotStatus, codex_task_status, event_of}
use esp32_monitor.BleLink.Codex.{Channel, codex_report_id, codex_rpc_buffer_size}
use esp32_monitor.BleLink.Codex.Requests.{
  Rpc, post_codex_task_status, codex_status_from_light, color_of, is_dim_light, effect_of,
  post_light, post_lights, slot_of, lights_of, method_of, send_response, response_to,
  handle_codex_rpc,
}
use esp32_monitor.BleLink.Codex.Buffer.{
  Inbox, handle_parsed, before_payload, trimmed, append_payload, take_payload, payload_of_report,
  codex_report_written,
}
use esp32_monitor.BleLink.Session.{IsLink, Appends, Keeps, is_frame, post_event-IsLink}

module _ {Node : Type 0} (host : Host) (appends : Appends host) (rpc : Rpc Node)
    (channel : Channel) where
  post_codex_task_status-IsLink :
      (slot : ℕ) (status : SlotStatus)
      → Keeps host appends (post_codex_task_status host slot status)
  unfolding post_codex_task_status
  post_codex_task_status-IsLink slot status link h =
      post_event-IsLink host appends link
        (record (event_of link codex_task_status) { codex_slot = slot; codex_status = status }) h
        (λ e. absurd (grind (arith, ap is_frame e)))

  post_light-IsLink :
      (node : Node) (slot : Option ℕ) → Keeps host appends (post_light rpc host node slot)
  post_light-IsLink node none link h = h
  post_light-IsLink node (some slot) link h =
      post_codex_task_status-IsLink slot
        (codex_status_from_light
          (color_of rpc host (as_number rpc.cjson (rpc.cjson.member node (text "c"))))
          (is_dim_light rpc host (as_number rpc.cjson (rpc.cjson.member node (text "b"))))
          (effect_of rpc host (rpc.cjson.member node (text "e"))))
        link h

  post_lights-IsLink : (nodes : List Node) → Keeps host appends (post_lights rpc host nodes)
  unfolding post_lights
  post_lights-IsLink [] link h = h
  post_lights-IsLink (node ∷ nodes) link h =
      let slot = slot_of rpc host (as_number rpc.cjson (rpc.cjson.member node (text "id"))) in
      post_lights-IsLink nodes (post_light rpc host node slot link)
        (post_light-IsLink node slot link h)

  send_response-IsLink :
      (json : Option (List ℕ))
      → Keeps host appends (λ link. (send_response rpc host channel link json).0)
  send_response-IsLink none link h = h
  send_response-IsLink (some json) link h = h

  handle_codex_rpc-IsLink :
      (request : Node)
      → Keeps host appends (λ link. (handle_codex_rpc rpc host channel request link).0)
  unfolding handle_codex_rpc
  handle_codex_rpc-IsLink request link h =
      let method =
        method_of rpc host (as_string rpc.cjson (rpc.cjson.member request (text "method"))) in
      let params = as_array rpc.cjson (rpc.cjson.member request (text "params")) in
      let nodes = lights_of rpc host method params in
      send_response-IsLink
        (rpc.print_response (rpc.cjson.member request (text "id"))
          (response_to rpc host method params))
        (post_lights rpc host nodes link) (post_lights-IsLink nodes link h)

  abbrev KeepsInbox : (Inbox → Inbox) → Type 0
  KeepsInbox f =
      (inbox : Inbox)
      → IsLink host.no_handle inbox.inbox_link
      → IsLink host.no_handle (f inbox).inbox_link

  handle_parsed-IsLink :
      (answer : Option (Node × ℕ)) → KeepsInbox (handle_parsed rpc host channel answer)
  handle_parsed-IsLink none inbox h = h
  handle_parsed-IsLink (some (request, parse_end)) inbox h =
      handle_codex_rpc-IsLink request inbox.inbox_link h

  append_payload-IsLink :
      (buffer payload : List ℕ) → KeepsInbox (append_payload rpc host channel buffer payload)
  unfolding append_payload
  append_payload-IsLink buffer payload inbox h =
      let joined = buffer ++ payload in
      if_either (λ (i : Inbox). IsLink host.no_handle i.inbox_link)
        (list_length payload == 0
          || ltb codex_rpc_buffer_size (list_length buffer + list_length payload))
        h (handle_parsed-IsLink (rpc.cjson.parse joined) (record inbox { rpc_buffer = joined }) h)

  take_payload-IsLink :
      (payload : Option (List ℕ)) → KeepsInbox (take_payload rpc host channel payload)
  unfolding take_payload
  take_payload-IsLink none inbox h = h
  take_payload-IsLink (some payload) inbox h =
      let buffer = before_payload rpc host channel payload inbox.rpc_buffer in
      append_payload-IsLink buffer (trimmed rpc host channel buffer payload) inbox h

  pub codex_report_written-IsLink :
      (is_output : Bool) (report_id : ℕ) (report : Option (List ℕ))
      → KeepsInbox (codex_report_written rpc host channel is_output report_id report)
  unfolding codex_report_written
  codex_report_written-IsLink is_output report_id none inbox h = h
  codex_report_written-IsLink is_output report_id (some report) inbox h =
      if_either (λ (i : Inbox). IsLink host.no_handle i.inbox_link)
        (not is_output || report_id != codex_report_id) h
        (take_payload-IsLink (payload_of_report report) inbox h)
