-- ===== src/BleLink/Codex/Framing.antt =====
-- What the reports of codex_notify_json carry.
use esp32_monitor.Base.{
  ℕ, zero, suc, ◌+◌, ◌-◌, ◌≤◌, ◌≡◌, refl, sym, ap, ap₂, ◌∙◌, arith, true, not, List, [], ◌∷◌, ◌++◌,
  ◌||◌, ◌==◌, if_cases, u8, take, drop, length, replicate, ◌*◌, ◌≢◌, All, take-append,
  length-append, length-take, length-drop, if_either, take-append-drop,
}
use esp32_monitor.Esp.{EspErr, esp_ok, no_mem, fail, invalid_state, timeout}
use esp32_monitor.BleLink.{Host, LinkState}
use esp32_monitor.BleLink.Send.{Notified, sent, no_buffer, refused, handed}
use esp32_monitor.BleLink.Codex.{
  Channel, newline, report_of, can_notify, notify_chunks, codex_notify_json,
  codex_report_payload_size,
}

-- What a peer reads from a report: as many bytes after the second as the second says.
abbrev pub payload_of : List ℕ → List ℕ
payload_of [] = []
payload_of (kind ∷ []) = []
payload_of (kind ∷ count ∷ bytes) = take count bytes

abbrev pub payloads : List (List ℕ) → List ℕ
payloads [] = []
payloads (report ∷ reports) = payload_of report ++ payloads reports

pub payload_of-report_of :
    (chunk : List ℕ) → length chunk ≤ 61 → payload_of (report_of chunk) ≡ chunk
payload_of-report_of chunk h = take-append (u8 (length chunk)) chunk _ (ground (arith, h))

length-zeros : (n : ℕ) → length (replicate {A = ℕ} n 0) ≡ n
length-zeros zero = omega arith
length-zeros (suc n) = omega (arith, length-zeros n)

pub length-report_of : (chunk : List ℕ) → length chunk ≤ 61 → length (report_of chunk) ≡ 63
length-report_of chunk h = omega (
  arith,
  length-append chunk (replicate {A = ℕ} (codex_report_payload_size - length chunk) 0),
  length-zeros (codex_report_payload_size - length chunk),
)

-- The first reports of what has to go out, each of its size, and all of it on success.
pub record Carries (bytes : List ℕ) (out : List (List ℕ) × EspErr) : Type 0 where
  pub in_order : payloads out.0 ≡ take (61 * length out.0) bytes
  pub whole_on_success : out.1 ≡ esp_ok → payloads out.0 ≡ bytes
  pub sized : All (λ (report : List ℕ). length report ≡ 63) out.0

take_plus : (m n k : ℕ) (xs : List ℕ) → m + n ≡ k → take k xs ≡ take m xs ++ take n (drop m xs)
take_plus zero n k xs e = let e' : k ≡ n = omega arith in ap (λ (j : ℕ). take j xs) e'
take_plus (suc m) n zero xs e = absurd (omega arith)
take_plus (suc m) zero (suc k) [] e = refl
take_plus (suc m) (suc n) (suc k) [] e = refl
take_plus (suc m) n (suc k) (x ∷ xs) e = ap (λ r. x ∷ r) (take_plus m n k xs (omega arith))

-- A round that handed its report over, before rounds that carry the rest.
first-Carries :
    (bytes : List ℕ) (out : List (List ℕ) × EspErr)
    → Carries (drop 61 bytes) out
    → Carries bytes (report_of (take 61 bytes) ∷ out.0, out.1)
first-Carries bytes out c =
    let chunk = take 61 bytes in
    let short : length chunk ≤ 61 = omega (arith, length-take 61 bytes) in
    let head = payload_of-report_of chunk short in
    let count : 61 + 61 * length out.0 ≡ 61 * suc (length out.0) = omega arith in
    record {
      in_order =
          ap₂ (λ (a b : List ℕ). a ++ b) head c.in_order
          ∙ sym (take_plus 61 (61 * length out.0) (61 * suc (length out.0)) bytes count);
      whole_on_success = λ e.
          ap₂ (λ (a b : List ℕ). a ++ b) head (c.whole_on_success e) ∙ take-append-drop 61 bytes;
      sized = (length-report_of chunk short, c.sized);
    }

nothing-Carries : (bytes : List ℕ) (result : EspErr) → result ≢ esp_ok → Carries bytes ([], result)
nothing-Carries bytes result n = record {
  in_order = refl;
  whole_on_success = λ e. absurd (n e);
  sized = tt;
}

shorter : (fuel : ℕ) (bytes : List ℕ) → length bytes ≤ suc fuel → length (drop 61 bytes) ≤ fuel
shorter fuel bytes h = omega (arith, length-drop 61 bytes)

module _ (host : Host) (channel : Channel) (link : LinkState) where
  handed-Carries :
      (answer : Notified) (bytes : List ℕ) (out : List (List ℕ) × EspErr)
      → Carries (drop 61 bytes) out
      → Carries bytes (handed answer (report_of (take 61 bytes)) out)
  handed-Carries sent bytes out c = first-Carries bytes out c
  handed-Carries no_buffer bytes out c = nothing-Carries bytes no_mem (λ e. ground (arith, e))
  handed-Carries refused bytes out c = nothing-Carries bytes fail (λ e. ground (arith, e))

  empty-Carries : (bytes : List ℕ) → length bytes ≡ 0 → Carries bytes ([], esp_ok)
  empty-Carries [] e = record { in_order = refl; whole_on_success = λ s. refl; sized = tt }
  empty-Carries (b ∷ bytes) e = absurd (omega arith)

  notify_chunks-Carries :
      (fuel round : ℕ) (bytes : List ℕ)
      → length bytes ≤ fuel
      → Carries bytes (notify_chunks host channel link fuel round bytes)
  unfolding notify_chunks
  notify_chunks-Carries zero round bytes h = empty-Carries bytes (omega arith)
  notify_chunks-Carries (suc fuel) round bytes h =
      let out = notify_chunks host channel link fuel (suc round) (drop 61 bytes) in
      let P : List (List ℕ) × EspErr → Type 0 = λ o. Carries bytes o in
      if_cases P (length bytes == 0) (λ e. empty-Carries bytes (ground (arith, e)))
        (λ e.
          if_either P (not (can_notify host channel link round))
            (nothing-Carries bytes invalid_state (λ q. ground (arith, q)))
            (handed-Carries (channel.notify_report round (report_of (take 61 bytes))) bytes out
              (notify_chunks-Carries fuel (suc round) (drop 61 bytes) (shorter fuel bytes h))))

  -- Whatever is answered in each round, and however the link changes between the rounds, the reports that are handed over have 63 bytes each and carry, in their
  -- order, the first bytes of the message and its newline, and all of them where the result is
  -- esp_ok.
  pub codex_notify_json-Carries :
      (json : List ℕ) → Carries (json ++ newline ∷ []) (codex_notify_json host channel link json)
  unfolding codex_notify_json
  codex_notify_json-Carries json =
      let framed = json ++ newline ∷ [] in
      let P : List (List ℕ) × EspErr → Type 0 = λ o. Carries framed o in
      if_either P (not channel.input_registered || not link.codex_send_mutex)
        (nothing-Carries framed invalid_state (λ q. ground (arith, q)))
        (if_either P (not channel.semaphore_taken)
          (nothing-Carries framed timeout (λ q. ground (arith, q)))
          (notify_chunks-Carries (length framed) 0 framed (omega arith)))

  -- The channel is up in every round and takes every report.
  pub record IsOpen : Type 0 where
    pub can : (round : ℕ) → can_notify host channel link round ≡ true
    pub registered : channel.input_registered ≡ true
    pub mutex : link.codex_send_mutex ≡ true
    pub taken : channel.semaphore_taken ≡ true
    pub accepts : (round : ℕ) (report : List ℕ) → channel.notify_report round report ≡ sent

  notify_chunks_ok :
      (fuel round : ℕ) (bytes : List ℕ)
      → IsOpen
      → length bytes ≤ fuel
      → (notify_chunks host channel link fuel round bytes).1 ≡ esp_ok
  unfolding notify_chunks
  notify_chunks_ok zero round bytes o h = refl
  notify_chunks_ok (suc fuel) round bytes o h =
      let report = report_of (take 61 bytes) in
      let P : List (List ℕ) × EspErr → Type 0 = λ out. out.1 ≡ esp_ok in
      if_cases P (length bytes == 0) (λ e. refl)
        (λ e.
          if_cases P (not (can_notify host channel link round))
            (λ q. absurd (ground (arith, o.can round, q)))
            (λ q.
              rw (o.accepts round report)
                (notify_chunks_ok fuel (suc round) (drop 61 bytes) o (shorter fuel bytes h))))

  codex_notify_json_ok :
      (json : List ℕ) → IsOpen → (codex_notify_json host channel link json).1 ≡ esp_ok
  unfolding codex_notify_json
  codex_notify_json_ok json o =
      let framed = json ++ newline ∷ [] in
      let P : List (List ℕ) × EspErr → Type 0 = λ out. out.1 ≡ esp_ok in
      if_cases P (not channel.input_registered || not link.codex_send_mutex)
        (λ q. absurd (ground (arith, o.registered, o.mutex, q)))
        (λ q.
          if_cases P (not channel.semaphore_taken) (λ q'. absurd (ground (arith, o.taken, q')))
            (λ q'. notify_chunks_ok (length framed) 0 framed o (omega arith)))

  -- On an open channel that takes every report, the loop ends with esp_ok when the message and its
  -- newline are out.
  pub codex_notify_json_ends :
      (json : List ℕ)
      → IsOpen
      → ((codex_notify_json host channel link json).1 ≡ esp_ok)
        × (payloads (codex_notify_json host channel link json).0 ≡ json ++ newline ∷ [])
  codex_notify_json_ends json o = (
    codex_notify_json_ok json o,
    (codex_notify_json-Carries json).whole_on_success (codex_notify_json_ok json o),
  )
