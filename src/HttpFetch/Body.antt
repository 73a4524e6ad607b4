-- ===== src/HttpFetch/Body.antt =====
-- What http_event_handler collects.
use mathlib.Core.Path.{subst}
use mathlib.Core.List.{append-nil, append_assoc}
use esp32_monitor.Base.{
  ℕ, ◌+◌, ◌≤◌, ◌≡◌, refl, sym, ap, ◌∙◌, arith, Bool, true, false, List, [], ◌∷◌, ◌++◌, ltb, ◌==◌,
  if_cases, if_either, length, length-append,
}
use esp32_monitor.Esp.{EspErr}
use esp32_monitor.HttpFetch.{
  Response, HttpEvent, on_data, other_event, http_event_handler, handle_events,
}

-- The bytes of all events, in their order.
abbrev pub body_of : List HttpEvent → List ℕ
body_of [] = []
body_of (other_event ∷ events) = body_of events
body_of (on_data bytes ∷ events) = bytes ++ body_of events

-- What is received is within the capacity, and is `expected` where nothing was refused, which is so
-- exactly where that fits.
pub record IsBody (expected : List ℕ) (context : Response) : Type 0 where
  pub bounded_body : length context.received ≤ context.capacity
  pub whole : context.overflow ≡ false → context.received ≡ expected
  pub refuses : context.overflow ≡ true → context.capacity + 1 ≤ length expected

data-IsBody :
    (bytes expected : List ℕ) (context : Response)
    → IsBody expected context
    → IsBody (expected ++ bytes) (http_event_handler (on_data bytes) context).0
unfolding http_event_handler
data-IsBody bytes expected context h =
    let P : Response × EspErr → Type 0 = λ out. IsBody (expected ++ bytes) out.0 in
    let size = length-append expected bytes in
    if_cases P (length bytes == 0) (λ e. nothing bytes e)
      (λ e.
        if_cases P (ltb context.capacity (length context.received + length bytes))
          (λ full. record {
            bounded_body = h.bounded_body;
            whole = λ o. absurd (ground (arith, o));
            refuses = λ o. refused full context.overflow refl;
          })
          (λ fits. record {
            bounded_body = ground (arith, fits, length-append context.received bytes);
            whole = λ o. ap (λ (xs : List ℕ). xs ++ bytes) (h.whole o);
            refuses = λ o. omega (arith, h.refuses o, size);
          }))
  where
    nothing : (bs : List ℕ) → (length bs == 0) ≡ true → IsBody (expected ++ bs) context
    nothing [] e = record {
      bounded_body = h.bounded_body;
      whole = λ o. h.whole o ∙ sym (append-nil expected);
      refuses = λ o. omega (arith, h.refuses o, length-append expected []);
    }
    nothing (b ∷ bs) e = absurd (ground (arith, e))

    refused :
        ltb context.capacity (length context.received + length bytes) ≡ true
        → (overflowed : Bool) → context.overflow ≡ overflowed
        → context.capacity + 1 ≤ length (expected ++ bytes)
    refused full true o = omega (arith, h.refuses o, length-append expected bytes)
    refused full false o =
        let same = ap (λ (xs : List ℕ). length xs) (h.whole o) in
        ground (arith, full, same, length-append expected bytes)

other-IsBody :
    (expected : List ℕ) (context : Response)
    → IsBody expected context
    → IsBody expected (http_event_handler other_event context).0
unfolding http_event_handler
other-IsBody expected context h = h

pub handle_events-IsBody :
    (events : List HttpEvent) (expected : List ℕ) (context : Response)
    → IsBody expected context
    → IsBody (expected ++ body_of events) (handle_events events context)
unfolding handle_events
handle_events-IsBody [] expected context h =
    subst (λ (e : List ℕ). IsBody e context) (sym (append-nil expected)) h
handle_events-IsBody (other_event ∷ events) expected context h =
    handle_events-IsBody events expected (http_event_handler other_event context).0
      (other-IsBody expected context h)
handle_events-IsBody (on_data bytes ∷ events) expected context h =
    let next = (http_event_handler (on_data bytes) context).0 in
    subst (λ (e : List ℕ). IsBody e (handle_events events next))
      (append_assoc expected bytes (body_of events))
      (handle_events-IsBody events (expected ++ bytes) next (data-IsBody bytes expected context h))

pub handle_events-capacity :
    (events : List HttpEvent) (context : Response)
    → (handle_events events context).capacity ≡ context.capacity
unfolding handle_events http_event_handler
handle_events-capacity [] context = refl
handle_events-capacity (other_event ∷ events) context = handle_events-capacity events context
handle_events-capacity (on_data bytes ∷ events) context =
    let P : Response × EspErr → Type 0 = λ out. out.0.capacity ≡ context.capacity in
    handle_events-capacity events (http_event_handler (on_data bytes) context).0
    ∙ if_either P (length bytes == 0) refl
        (if_either P (ltb context.capacity (length context.received + length bytes)) refl refl)
