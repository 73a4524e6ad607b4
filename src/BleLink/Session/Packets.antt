-- ===== src/BleLink/Session/Packets.antt =====
-- The packets that a peer writes and the link.
use esp32_monitor.Base.{
  ℕ, ◌+◌, ◌≤◌, ◌≢◌, ◌≡◌, refl, sym, ap, ◌∙◌, arith, true, not, Option, none, some, List, ◌++◌, ltb,
  leb, ◌==◌, ◌!=◌, ◌||◌, ◌&&◌, if_either, if_cases, if◌then◌else◌, u8, sub_u32, get_or, take, drop,
  copy_to, replicate, take-append, length-take, length-drop, length-append, length as list_length,
}
use esp32_monitor.Protocol.{Status, ok, max_frame_size, read_u16_le}
use esp32_monitor.Protocol.Codec.{decode_into}
use esp32_monitor.BleLink.{
  Host, LinkState, Assembly, frame_received, event_of, reset_reassembly, no_assembly,
  fragment_header_size, packet_size, reassembly_timeout_ms,
}
use esp32_monitor.BleLink.Reassembly.{
  is_ok, AttStatus, begun, unset_frame, finish_assembly, append_fragment, take_fragment,
  handle_rx_fragment,
}
use esp32_monitor.BleLink.Session.{
  IsAssembly, IsLink, Appends, Keeps, queued, post_event-IsLink, no_assembly-IsAssembly,
}

length-copy_to :
    (xs bytes : List ℕ) (offset : ℕ)
    → offset + list_length bytes ≤ list_length xs
    → list_length (copy_to xs offset bytes) ≡ list_length xs
length-copy_to xs bytes offset h =
    let rest = drop (offset + list_length bytes) xs in
    let all : list_length (copy_to xs offset bytes)
        ≡ list_length (take offset xs ++ bytes) + list_length rest =
      length-append (take offset xs ++ bytes) rest in
    omega (
      arith,
      all,
      length-append (take offset xs) bytes,
      length-take offset xs,
      length-drop (offset + list_length bytes) xs,
    )

is_ok-ok : (status : Status) → is_ok status ≡ true → status ≡ ok
unfolding is_ok
is_ok-ok status h = ground (arith, h)

-- Another assembly under the same flags.
with_assembly-IsLink :
    (no_handle : ℕ) (link : LinkState) (assembly : Assembly)
    → IsLink no_handle link
    → IsAssembly assembly
    → IsLink no_handle (record link { assembly = assembly })
unfolding queued
with_assembly-IsLink no_handle link assembly h a = record {
  assembled = a;
  detached = h.detached;
  sound = h.sound;
}

copied_frame :
    (frame : List ℕ)
    → take (list_length frame) (copy_to (replicate max_frame_size 0) 0 frame) ≡ frame
copied_frame frame = take-append (list_length frame) frame _ refl

-- The assembly that has taken a fragment in.
taken-IsAssembly :
    (assembly : Assembly) (fragment : List ℕ)
    → IsAssembly assembly
    → assembly.active ≡ true
    → assembly.length + list_length fragment ≤ max_frame_size
    → u8 (assembly.next_fragment + 1) ≢ assembly.fragment_count
    → IsAssembly (record assembly {
      bytes = copy_to assembly.bytes assembly.length fragment;
      length = assembly.length + list_length fragment;
      next_fragment = u8 (assembly.next_fragment + 1);
    })
taken-IsAssembly assembly fragment h active room more = record {
  whole = length-copy_to assembly.bytes fragment assembly.length (omega (arith, h.whole)) ∙ h.whole;
  filled = room;
  announced = λ _. let below = h.announced active in omega (arith, below, more);
}

module _ (host : Host) (appends : Appends host) where
  finish_assembly-IsLink :
      (link : LinkState)
      → IsLink host.no_handle (record link { assembly = no_assembly })
      → link.assembly.length ≤ list_length link.assembly.bytes
      → IsLink host.no_handle (finish_assembly host link).0
  unfolding finish_assembly reset_reassembly
  finish_assembly-IsLink link h filled =
      let frame = take link.assembly.length link.assembly.bytes in
      let event = record (event_of link frame_received) {
        frame_length = link.assembly.length;
        frame = copy_to (replicate max_frame_size 0) 0 frame;
      } in
      let size : list_length frame ≡ link.assembly.length =
        omega (arith, length-take link.assembly.length link.assembly.bytes) in
      let back : take link.assembly.length event.frame ≡ frame =
        ap (λ (n : ℕ). take n event.frame) (sym size) ∙ copied_frame frame in
      if_cases (λ (r : LinkState × AttStatus). IsLink host.no_handle r.0)
        (is_ok (decode_into frame unset_frame).0)
        (λ checked.
          post_event-IsLink host appends (reset_reassembly link) event h
            (λ _. rw back (is_ok-ok (decode_into frame unset_frame).0 checked)))
        (λ _. h)

  append_fragment-IsLink :
      (flat : List ℕ) → Keeps host appends (λ link. (append_fragment host link flat).0)
  unfolding append_fragment reset_reassembly
  append_fragment-IsLink flat link h =
      let P : LinkState × AttStatus → Type 0 = λ r. IsLink host.no_handle r.0 in
      let assembly = link.assembly in
      let fragment = drop fragment_header_size flat in
      let next = u8 (assembly.next_fragment + 1) in
      let grown = record assembly {
        bytes = copy_to assembly.bytes assembly.length fragment;
        length = assembly.length + list_length fragment;
        next_fragment = next;
      } in
      let cleared =
        with_assembly-IsLink host.no_handle link no_assembly h
          (no_assembly-IsAssembly host appends) in
      if_cases P
        (not assembly.active
          || assembly.frame_id != read_u16_le flat 0
          || assembly.fragment_count != get_or flat 3 0
          || assembly.next_fragment != get_or flat 2 0
          || ltb max_frame_size (assembly.length + list_length fragment))
        (λ _. cleared)
        (λ passed.
          let active : assembly.active ≡ true = ground (arith, passed) in
          let room : assembly.length + list_length fragment ≤ max_frame_size =
            ground (arith, passed) in
          if_cases P (next != assembly.fragment_count)
            (λ more.
              with_assembly-IsLink host.no_handle link grown h
                (taken-IsAssembly assembly fragment h.assembled active room (ground (arith, more))))
            (λ _.
              finish_assembly-IsLink (record link { assembly = grown }) cleared
                (omega (
                  arith,
                  h.assembled.whole,
                  length-copy_to assembly.bytes fragment assembly.length
                      (omega (arith, h.assembled.whole, room)),
                ))))

  take_fragment-IsLink :
      (flat : List ℕ) (now_ms : ℕ)
      → Keeps host appends (λ link. (take_fragment host link flat now_ms).0)
  unfolding take_fragment reset_reassembly
  take_fragment-IsLink flat now_ms link h =
      let P : LinkState × AttStatus → Type 0 = λ r. IsLink host.no_handle r.0 in
      let index = get_or flat 2 0 in
      let count = get_or flat 3 0 in
      let stale =
        link.assembly.active
        && ltb reassembly_timeout_ms (sub_u32 now_ms link.assembly.started_ms) in
      let current = if stale then reset_reassembly link else link in
      let cleared : (link' : LinkState)
          → IsLink host.no_handle link'
          → IsLink host.no_handle (record link' { assembly = no_assembly }) =
        λ link' h'.
          with_assembly-IsLink host.no_handle link' no_assembly h'
            (no_assembly-IsAssembly host appends) in
      let h' = if_either (IsLink host.no_handle) stale (cleared link h) h in
      if_cases P (count == 0 || leb count index) (λ _. cleared current h')
        (λ passed.
          if_either P (index == 0)
            (append_fragment-IsLink flat
              (record current { assembly = begun (read_u16_le flat 0) count now_ms })
              (with_assembly-IsLink host.no_handle current (begun (read_u16_le flat 0) count now_ms)
                h'
                (record {
                  whole = refl;
                  filled = omega arith;
                  announced = λ _. ground (arith, passed);
                })))
            (append_fragment-IsLink flat current h'))

  flattened-IsLink :
      (packet : List ℕ) (now_ms : ℕ) (answer : Option (List ℕ))
      → host.to_flat packet ≡ answer
      → Keeps host appends (λ link. (handle_rx_fragment host link packet now_ms).0)
  unfolding handle_rx_fragment
  flattened-IsLink packet now_ms none e link h =
      rw (e, handle_rx_fragment)
        (if_either (λ (r : LinkState × AttStatus). IsLink host.no_handle r.0)
          (leb (list_length packet) fragment_header_size || ltb packet_size (list_length packet)) h
          h)
  flattened-IsLink packet now_ms (some flat) e link h =
      rw (e, handle_rx_fragment)
        (if_either (λ (r : LinkState × AttStatus). IsLink host.no_handle r.0)
          (leb (list_length packet) fragment_header_size || ltb packet_size (list_length packet)) h
          (if_either (λ (r : LinkState × AttStatus). IsLink host.no_handle r.0)
            (list_length flat != list_length packet) h (take_fragment-IsLink flat now_ms link h)))

  pub handle_rx_fragment-IsLink :
      (packet : List ℕ) (now_ms : ℕ)
      → Keeps host appends (λ link. (handle_rx_fragment host link packet now_ms).0)
  handle_rx_fragment-IsLink packet now_ms =
      flattened-IsLink packet now_ms (host.to_flat packet) refl
