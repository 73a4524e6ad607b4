-- ===== src/Supervisor/Values.antt =====
-- What an accepted payload can put into the application's state.
use esp32_monitor.Base.{ℕ, ◌≡◌, Option, some, List, ◌==◌, ◌&&◌, u8, if_either}
use esp32_monitor.Base.Options.{Every, Every-some, >>=-Every, any-Every}
use esp32_monitor.AppModel.{AppState, AiTaskSlot}
use esp32_monitor.Supervisor.{Env}
use esp32_monitor.Supervisor.Payloads.Ranges.{
  InRange, apply_system-InRange, apply_control-InRange, apply_media-InRange,
}
use esp32_monitor.Supervisor.Payloads.Agents.{
  Progress, apply_ai_state_payload, apply_ai_tasks_payload, apply_claude_tasks_payload, read_ai,
  read_tasks, read_task, read_claude_task, with_claude_tasks, same_slots,
}
use esp32_monitor.Supervisor.Frames.{
  apply_state_payload, message_system_state, message_control_layout, message_ai_state,
  message_ai_claude_tasks, message_ai_tasks, message_media_state,
}

module _ {Node : Type 0} (env : Env Node) where
  apply_ai_state-InRange :
      (payload : List ℕ) (state : AppState)
      → InRange state
      → Every InRange (apply_ai_state_payload env.cjson payload state)
  unfolding apply_ai_state_payload
  apply_ai_state-InRange payload state h =
      >>=-Every (λ (p : Progress). Unit {0}) (λ (s : AppState). InRange s) _ _
        (any-Every (read_ai env.cjson payload))
        (λ p u. record {
          system_in_range = h.system_in_range;
          control_in_range = h.control_in_range;
          media_in_range = h.media_in_range;
        })

  apply_ai_tasks-InRange :
      (payload : List ℕ) (state : AppState)
      → InRange state
      → Every InRange (apply_ai_tasks_payload env.cjson payload state)
  unfolding apply_ai_tasks_payload
  apply_ai_tasks-InRange payload state h =
      >>=-Every (λ (p : List AiTaskSlot × ℕ). Unit {0}) (λ (s : AppState). InRange s) _ _
        (any-Every (read_tasks env.cjson (read_task env.cjson) payload))
        (λ p u. record {
          system_in_range = h.system_in_range;
          control_in_range = h.control_in_range;
          media_in_range = h.media_in_range;
        })

  with_claude_tasks-InRange :
      (slots : List AiTaskSlot) (count : ℕ) (state : AppState)
      → InRange state
      → InRange (with_claude_tasks env.cjson slots count state)
  with_claude_tasks-InRange slots count state h =
      if_either (λ (s : AppState). InRange s)
        (same_slots state.ai.claude_tasks slots && state.ai.claude.available_task_slots == u8 count)
        h
        (record {
          system_in_range = h.system_in_range;
          control_in_range = h.control_in_range;
          media_in_range = h.media_in_range;
        })

  apply_claude_tasks-InRange :
      (payload : List ℕ) (state : AppState)
      → InRange state
      → Every InRange (apply_claude_tasks_payload env.cjson payload state)
  unfolding apply_claude_tasks_payload
  apply_claude_tasks-InRange payload state h =
      >>=-Every (λ (p : List AiTaskSlot × ℕ). Unit {0}) (λ (s : AppState). InRange s) _ _
        (any-Every (read_tasks env.cjson (read_claude_task env.cjson) payload))
        (λ p u. with_claude_tasks-InRange p.0 p.1 state h)

  -- An accepted payload leaves the processor and memory loads at 1000 tenths of a percent at most,
  -- the battery at 100 or the 255 of none, the volume at 100 at most, a position within a duration
  -- that is known, 6 actions at most, and texts that fit their arrays.
  pub apply_state_payload-InRange :
      (type : ℕ) (payload : List ℕ) (state next : AppState)
      → InRange state
      → apply_state_payload env type payload state ≡ some next
      → InRange next
  unfolding apply_state_payload
  apply_state_payload-InRange type payload state next h e =
      let P : Option AppState → Type 0 = λ o. Every InRange o in
      let kept : P (apply_state_payload env type payload state) =
        if_either P (type == message_system_state) (apply_system-InRange env.cjson payload state h)
          (if_either P (type == message_control_layout)
            (apply_control-InRange env.cjson payload state h)
            (if_either P (type == message_ai_state) (apply_ai_state-InRange payload state h) (
              if_either P (type == message_ai_claude_tasks)
                (apply_claude_tasks-InRange payload state h)
                (if_either P (type == message_ai_tasks) (apply_ai_tasks-InRange payload state h) (
                  if_either P (type == message_media_state)
                    (apply_media-InRange env.cjson payload state h) tt))))) in
      Every-some InRange (apply_state_payload env type payload state) kept e
