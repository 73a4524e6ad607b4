-- ===== src/HttpFetch/Answer.antt =====
-- What a request gives.
use mathlib.Core.Path.{subst}
use esp32_monitor.Base.{
  ℕ, ◌+◌, ◌-◌, ◌*◌, ◌≤◌, ◌≡◌, ◌≢◌, refl, ap, arith, min, max, Bool, true, false, not, Option, none,
  some, List, [], ◌&&◌, ◌||◌, ltb, leb, ◌==◌, ◌!=◌, if_cases, if_either, length, drop, take,
}
use esp32_monitor.Esp.{EspErr, esp_ok, fail, no_mem, invalid_arg, timeout, is_esp_ok}
use esp32_monitor.HttpFetch.{
  Response, HttpEvent, handle_events, Inflater, output_capacity, inflated, inflate_body,
  inflate_after, inflate_gzip, Client, empty_response, max_output_of, is_gzip, finish_request,
  http_get_json, header_end, trailer_size, byte_at, skip_extra,
}
use esp32_monitor.HttpFetch.Body.{body_of, IsBody, handle_events-IsBody, handle_events-capacity}

output_capacity-max :
    (isize max_output : ℕ) → output_capacity isize max_output ≤ max 1024 max_output
unfolding output_capacity
output_capacity-max isize max_output = ground arith

-- tinfl_decompress writes no more than its buffer holds.
abbrev pub IsInflater : Inflater → Type 0
IsInflater inflater =
    (input output : List ℕ) (size : ℕ)
    → inflater.inflate input size ≡ some output
    → length output ≤ size

module _ (inflater : Inflater) (i : IsInflater inflater) where
  inflated-length :
      (input : List ℕ) (size : ℕ) (answer : Option (List ℕ))
      → inflater.inflate input size ≡ answer
      → length (inflated inflater answer).1 ≤ size
  inflated-length input size none e = omega arith
  inflated-length input size (some output) e = i input output size e

  inflate_body-length :
      (compressed : List ℕ) (max_output header : ℕ)
      → length (inflate_body inflater compressed max_output header).1 ≤ max 1024 max_output
  unfolding inflate_body
  inflate_body-length compressed max_output header =
      let P : EspErr × List ℕ → Type 0 = λ out. length out.1 ≤ max 1024 max_output in
      let size = output_capacity (trailer_size compressed) max_output in
      let body = take (length compressed - header - 8) (drop header compressed) in
      if_either P (ltb (length compressed) (header + 8)) (omega arith) (
        if_either P (not inflater.output_allocated || not inflater.decompressor_allocated)
          (omega arith)
          (omega (
            arith,
            inflated-length body size (inflater.inflate body size) refl,
            output_capacity-max (trailer_size compressed) max_output,
          )))

  inflate_after-length :
      (compressed : List ℕ) (max_output : ℕ) (header : Option ℕ)
      → length (inflate_after inflater compressed max_output header).1 ≤ max 1024 max_output
  inflate_after-length compressed max_output none = omega arith
  inflate_after-length compressed max_output (some header) =
      inflate_body-length compressed max_output (header_end compressed header)

  inflate_gzip-length :
      (compressed : List ℕ) (max_output : ℕ)
      → length (inflate_gzip inflater compressed max_output).1 ≤ max 1024 max_output
  unfolding inflate_gzip
  inflate_gzip-length compressed max_output =
      if_either (λ (out : EspErr × List ℕ). length out.1 ≤ max 1024 max_output)
        (ltb (length compressed) 18 || byte_at compressed 2 != 8) (omega arith)
        (inflate_after-length compressed max_output (skip_extra compressed 10))

-- The two bytes that a gzip begins with.
abbrev pub starts_gzip : List ℕ → Bool
starts_gzip body = leb 2 (length body) && byte_at body 0 == 0x1f && byte_at body 1 == 0x8b

-- A response is bounded; a successful one had a body that fits and, where it is no gzip, is it.
pub record IsAnswer (events : List HttpEvent) (capacity : ℕ) (answer : EspErr × List ℕ)
    : Type 0 where
  pub body_fits : answer.0 ≡ esp_ok → length (body_of events) ≤ capacity
  pub plain : answer.0 ≡ esp_ok → starts_gzip (body_of events) ≡ false → answer.1 ≡ body_of events
  pub limited : length answer.1 ≤ max capacity (max 1024 (min (capacity * 8) (256 * 1024)))

module _ (client : Client) (inflater : Inflater) where
  failed-IsAnswer :
      (capacity : ℕ) (result : EspErr)
      → result ≢ esp_ok
      → IsAnswer client.events capacity (result, [])
  failed-IsAnswer capacity result n = record {
    body_fits = λ e. absurd (n e);
    plain = λ e. absurd (n e);
    limited = omega arith;
  }

  begins :
      (received body : List ℕ)
      → received ≡ body
      → is_gzip client inflater received ≡ true
      → starts_gzip body ≡ false
      → ⊥
  begins received body same g n =
      let g' : starts_gzip body ≡ true = subst (λ (xs : List ℕ). starts_gzip xs ≡ true) same g in
      ground (arith, n, g')

  unpacked_fits :
      (capacity : ℕ) (received : List ℕ)
      → IsInflater inflater
      → length (inflate_gzip inflater received (max_output_of capacity)).1
        ≤ max capacity (max 1024 (min (capacity * 8) (256 * 1024)))
  unpacked_fits capacity received i =
      let fits = inflate_gzip-length inflater i received (max_output_of capacity) in
      ground (arith, fits)

  finish_request-IsAnswer :
      (capacity : ℕ) (context : Response)
      → IsInflater inflater
      → context.capacity ≡ capacity
      → IsBody (body_of client.events) context
      → IsAnswer client.events capacity (finish_request client inflater capacity context)
  unfolding finish_request is_esp_ok
  finish_request-IsAnswer capacity context i c b =
      let P : EspErr × List ℕ → Type 0 = λ out. IsAnswer client.events capacity out in
      if_cases P (not (is_esp_ok client.performed))
        (λ e. failed-IsAnswer capacity client.performed (λ q. ground (arith, e, q)))
        (λ e1.
          if_cases P context.overflow
            (λ e. failed-IsAnswer capacity no_mem (λ q. ground (arith, q)))
            (λ o.
              let same = b.whole o in
              let size = ap (λ (xs : List ℕ). length xs) same in
              if_cases P (client.status_code != 200 || length context.received == 0)
                (λ e. failed-IsAnswer capacity fail (λ q. ground (arith, q)))
                (λ e2.
                  if_cases P (is_gzip client inflater context.received)
                    (λ g. record {
                      body_fits = λ s. omega (arith, size, b.bounded_body, c);
                      plain =
                          λ s n. absurd (begins context.received (body_of client.events) same g n);
                      limited = unpacked_fits capacity context.received i;
                    })
                    (λ g. record {
                      body_fits = λ s. omega (arith, size, b.bounded_body, c);
                      plain = λ s n. same;
                      limited = omega (arith, b.bounded_body, c);
                    }))))

  -- With an inflater that keeps to its buffer: a request that gives esp_ok had a body that fits the
  -- capacity, its response is that body where it is no gzip, and no response is longer than the
  -- largest of the capacity, 1024 bytes, and the smaller of eight times the capacity and 256 KiB.
  pub http_get_json-IsAnswer :
      (capacity : ℕ)
      → IsInflater inflater
      → IsAnswer client.events capacity (http_get_json client inflater capacity)
  unfolding http_get_json
  http_get_json-IsAnswer capacity i =
      let P : EspErr × List ℕ → Type 0 = λ out. IsAnswer client.events capacity out in
      let failed = failed-IsAnswer capacity in
      let start = empty_response capacity in
      let body = handle_events-IsBody client.events [] start (record {
        bounded_body = omega arith;
        whole = λ o. refl;
        refuses = λ o. absurd (ground (arith, o));
      }) in
      if_either P (capacity == 0) (failed invalid_arg (λ q. ground (arith, q))) (
        if_either P (not client.mutex_created) (failed no_mem (λ q. ground (arith, q))) (
          if_either P (not client.mutex_taken) (failed timeout (λ q. ground (arith, q))) (
            if_either P (not client.buffer_allocated || not client.client_created)
              (failed no_mem (λ q. ground (arith, q)))
              (if_either P (not client.headers_complete)
                (failed invalid_arg (λ q. ground (arith, q)))
                (finish_request-IsAnswer capacity (handle_events client.events start) i
                  (handle_events-capacity client.events start) body)))))
