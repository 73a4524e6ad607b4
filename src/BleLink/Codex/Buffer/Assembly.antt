-- ===== src/BleLink/Codex/Buffer/Assembly.antt =====
-- Requests that arrive in several reports.
use esp32_monitor.Base.{
  ℕ, ◌+◌, ◌≤◌, ◌≡◌, refl, ap, ◌∙◌, arith, true, false, not, Option, none, some, List, [], ◌∷◌, ◌++◌,
  ◌&&◌, ◌||◌, ltb, ◌==◌, ◌!=◌, if_either, if_cases, length, length-append, get_or, u8,
}
use esp32_monitor.BleLink.{Host}
use esp32_monitor.BleLink.Codex.{Channel, report_of, codex_report_id}
use esp32_monitor.BleLink.Codex.Framing.{length-report_of, payload_of-report_of}
use esp32_monitor.BleLink.Codex.Requests.{Rpc}
use esp32_monitor.BleLink.Codex.Buffer.{
  Inbox, starts_request, payload_of_report, payload_at, input_offset, handle_parsed, before_payload,
  append_payload, take_payload, codex_report_written, from_brace, is_brace, trimmed,
}

-- A chunk fits a report and is not empty.
abbrev pub IsChunk : List ℕ → Type 0
IsChunk chunk = (length chunk ≤ 61) × (1 ≤ length chunk)

get_count : (chunk : List ℕ) → get_or (report_of chunk) (0 + 1) 0 ≡ u8 (length chunk)
get_count chunk = refl

payload_at-report_of :
    (chunk : List ℕ) → IsChunk chunk → payload_at 0 (report_of chunk) ≡ some chunk
unfolding payload_at
payload_at-report_of chunk h =
    let size = length-report_of chunk h.0 in
    let P : Option (List ℕ) → Type 0 = λ o. o ≡ some chunk in
    if_cases P (ltb (length (report_of chunk)) (0 + 2) || get_or (report_of chunk) 0 0 != 2)
      (λ e. absurd (ground (arith, e, size)))
      (λ e.
        if_cases P
          (ltb 61 (u8 (length chunk)) || ltb (length (report_of chunk)) (0 + 2 + u8 (length chunk)))
          (λ q. absurd (ground (arith, q, size, h)))
          (λ q. ap some (payload_of-report_of chunk h.0)))

payload_of_report-report_of :
    (chunk : List ℕ) → IsChunk chunk → payload_of_report (report_of chunk) ≡ some chunk
unfolding payload_of_report
payload_of_report-report_of chunk h =
    let size = length-report_of chunk h.0 in
    let at_0 : input_offset (report_of chunk) ≡ 0 = ground (arith, size) in
    let P : Option (List ℕ) → Type 0 = λ o. o ≡ some chunk in
    if_cases P (ltb (length (report_of chunk)) 2) (λ e. absurd (ground (arith, e, size)))
      (λ e. ap (λ (o : ℕ). payload_at o (report_of chunk)) at_0 ∙ payload_at-report_of chunk h)

module _ {Node : Type 0} (rpc : Rpc Node) (host : Host) (channel : Channel) where
  abbrev pub write_all : List (List ℕ) → Inbox → Inbox
  write_all [] inbox = inbox
  write_all (chunk ∷ chunks) inbox =
      write_all chunks
        (codex_report_written rpc host channel true codex_report_id (some (report_of chunk)) inbox)

  -- The rest of a request, where `before` is in the buffer: none of the chunks begins a request, no
  -- part before the last chunk parses, and the whole does.
  abbrev pub Completes : List ℕ → List (List ℕ) → Node → Type 0
  Completes before [] request = ⊥
  Completes before (chunk ∷ []) request =
      IsChunk chunk
      × (starts_request chunk ≡ false)
      × (n : ℕ) × (rpc.cjson.parse (before ++ chunk) ≡ some (request, n))
  Completes before (chunk ∷ next ∷ chunks) request =
      IsChunk chunk
      × (starts_request chunk ≡ false)
      × (rpc.cjson.parse (before ++ chunk) ≡ none)
      × Completes (before ++ chunk) (next ∷ chunks) request

  abbrev total : List (List ℕ) → ℕ
  total [] = 0
  total (chunk ∷ chunks) = length chunk + total chunks

  -- What handling a request leaves.
  abbrev pub answered : Node → Inbox → Inbox
  answered request inbox = handle_parsed rpc host channel (some (request, 0)) inbox

  -- What a chunk does, where it goes to the buffer as it is.
  joined : List ℕ → List ℕ → Inbox → Inbox
  joined before chunk inbox =
      handle_parsed rpc host channel (rpc.cjson.parse (before ++ chunk))
        (record inbox { rpc_buffer = before ++ chunk })

  append_payload_lem :
      (before chunk : List ℕ) (inbox : Inbox)
      → IsChunk chunk
      → length before + length chunk ≤ 4096
      → append_payload rpc host channel before chunk inbox ≡ joined before chunk inbox
  unfolding append_payload joined
  append_payload_lem before chunk inbox h fits =
      if_cases (λ (i : Inbox). i ≡ joined before chunk inbox)
        (length chunk == 0 || ltb 4096 (length before + length chunk))
        (λ e. absurd (ground (arith, e, h, fits))) (λ e. refl)

  written_chunk :
      (chunk : List ℕ) (inbox : Inbox)
      → IsChunk chunk
      → codex_report_written rpc host channel true codex_report_id (some (report_of chunk)) inbox
        ≡ take_payload rpc host channel (some chunk) inbox
  unfolding codex_report_written
  written_chunk chunk inbox h =
      ap (λ (p : Option (List ℕ)). take_payload rpc host channel p inbox)
        (payload_of_report-report_of chunk h)

  later_chunk :
      (before chunk : List ℕ) (inbox : Inbox)
      → 1 ≤ length before
      → IsChunk chunk
      → starts_request chunk ≡ false
      → length before + length chunk ≤ 4096
      → codex_report_written rpc host channel true codex_report_id
          (some (report_of chunk))
          (record inbox { rpc_buffer = before })
        ≡ joined before chunk inbox
  unfolding take_payload joined
  later_chunk before chunk inbox b h n fits =
      let kept : before_payload rpc host channel chunk before ≡ before =
        if_cases (λ (xs : List ℕ). xs ≡ before) (starts_request chunk && not (length before == 0))
          (λ e. absurd (ground (arith, e, n))) (λ e. refl) in
      let whole : trimmed rpc host channel before chunk ≡ chunk =
        if_cases (λ (xs : List ℕ). xs ≡ chunk) (length before == 0)
          (λ e. absurd (ground (arith, e, b))) (λ e. refl) in
      let i = record inbox { rpc_buffer = before } in
      written_chunk chunk i h
      ∙ ap
          (λ (xs : List ℕ).
            append_payload rpc host channel xs (trimmed rpc host channel xs chunk) i)
          kept
      ∙ ap (λ (xs : List ℕ). append_payload rpc host channel before xs i) whole
      ∙ append_payload_lem before chunk i h fits

  -- A payload of a new request empties the buffer, and begins with a brace.
  emptied :
      (chunk buffer : List ℕ)
      → starts_request chunk ≡ true
      → before_payload rpc host channel chunk buffer ≡ []
  emptied chunk [] s =
      if_either (λ (xs : List ℕ). xs ≡ []) (starts_request chunk && not (length {A = ℕ} [] == 0))
        refl refl
  emptied chunk (b ∷ bs) s =
      if_cases (λ (xs : List ℕ). xs ≡ []) (starts_request chunk && not (length (b ∷ bs) == 0))
        (λ e. refl) (λ e. absurd (ground (arith, e, s)))

  braced : (chunk : List ℕ) → starts_request chunk ≡ true → from_brace chunk ≡ chunk
  braced [] s = refl
  braced (byte ∷ bytes) s =
      if_cases (λ (xs : List ℕ). xs ≡ byte ∷ bytes) (is_brace byte) (λ e. refl)
        (λ e. absurd (ground (arith, e, s)))

  first_chunk :
      (chunk : List ℕ) (inbox : Inbox)
      → IsChunk chunk
      → starts_request chunk ≡ true
      → codex_report_written rpc host channel true codex_report_id (some (report_of chunk)) inbox
        ≡ joined [] chunk inbox
  unfolding take_payload
  first_chunk chunk inbox h s =
      written_chunk chunk inbox h
      ∙ ap
          (λ (xs : List ℕ).
            append_payload rpc host channel xs (trimmed rpc host channel xs chunk) inbox)
          (emptied chunk inbox.rpc_buffer s)
      ∙ ap (λ (xs : List ℕ). append_payload rpc host channel [] xs inbox) (braced chunk s)
      ∙ append_payload_lem [] chunk inbox h (ground (arith, h))

  write_rest :
      (before : List ℕ) (chunks : List (List ℕ)) (request : Node) (inbox : Inbox)
      → 1 ≤ length before
      → length before + total chunks ≤ 4096
      → Completes before chunks request
      → write_all chunks (record inbox { rpc_buffer = before }) ≡ answered request inbox
  unfolding joined
  write_rest before [] request inbox b fits c = absurd c
  write_rest before (chunk ∷ []) request inbox b fits c =
      later_chunk before chunk inbox b c.0 c.1 (omega arith)
      ∙ ap
          (λ (p : Option (Node × ℕ)).
            handle_parsed rpc host channel p (record inbox { rpc_buffer = before ++ chunk }))
          c.3
  write_rest before (chunk ∷ next ∷ chunks) request inbox b fits c =
      let size = length-append before chunk in
      ap (λ (i : Inbox). write_all (next ∷ chunks) i)
        (later_chunk before chunk inbox b c.0 c.1 (omega arith)
          ∙ ap
              (λ (p : Option (Node × ℕ)).
                handle_parsed rpc host channel p (record inbox { rpc_buffer = before ++ chunk }))
              c.2)
      ∙ write_rest (before ++ chunk) (next ∷ chunks) request inbox (omega (arith, size, b))
          (omega (arith, size, fits)) c.3

  -- A request of 4096 bytes at most in two reports or more, the first of which begins with the text
  -- {"method" and no other does, and no part of which parses before its end, is handled once,
  -- whatever was in the buffer before, and leaves the buffer empty.
  pub codex_report_written-answered :
      (first : List ℕ) (rest : List (List ℕ)) (request : Node) (inbox : Inbox)
      → IsChunk first
      → starts_request first ≡ true
      → rpc.cjson.parse first ≡ none
      → Completes first rest request
      → length first + total rest ≤ 4096
      → write_all (first ∷ rest) inbox ≡ answered request inbox
  unfolding joined
  codex_report_written-answered first rest request inbox h s p c fits =
      ap (λ (i : Inbox). write_all rest i)
        (first_chunk first inbox h s
          ∙ ap
              (λ (p : Option (Node × ℕ)).
                handle_parsed rpc host channel p (record inbox { rpc_buffer = first }))
              p)
      ∙ write_rest first rest request inbox h.1 fits c
