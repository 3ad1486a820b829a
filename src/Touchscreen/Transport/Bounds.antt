-- ===== src/Touchscreen/Transport/Bounds.antt =====
-- connection_transport.cpp: no buffer and no queue overflows.
use keg_scale_espdisplay.Prelude.{
  ℕ, zero, suc, ◌/◌, ◌%◌, ◌≤◌, ◌≡◌, refl, inl, inr, not, ◌&&◌, Option, none, some, List, [], ◌∷◌,
  arith, ltb, ◌==◌, ltb→lt, Bool-cases, length, take, All, length-append, All-append, ℤ, pos,
  negsuc,
}
use keg_scale_espdisplay.Touchscreen.Transport.{
  max_frame, queue_size, Frame, no_frame, ScaleConnection, Transport, connection_for,
  put_connection, send_frame, EventData, Event, connected, disconnected, error, received, other,
  equals, on_disconnect, begin_message, append_part, store_part, on_data, on_event, socket_event,
}

abbrev pub Fits : Frame → Type 0
Fits f = length f.bytes ≤ max_frame

pub record InBounds (t : Transport) : Type 0 where
  pub assembly_0 : Fits t.connection_0.assembly
  pub assembly_1 : Fits t.connection_1.assembly
  pub queued : length t.frames ≤ queue_size
  pub sent : All Fits t.frames

pub length-take : (n : ℕ) (xs : List ℕ) → length (take n xs) ≤ n
length-take zero xs = omega arith
length-take (suc n) [] = omega arith
length-take (suc n) (x ∷ xs) = omega (arith, length-take n xs)

send_frame-InBounds : (f : Frame) (t : Transport) → Fits f → InBounds t → InBounds (send_frame f t)
unfolding send_frame
send_frame-InBounds f t h b = elim (Bool-cases (ltb (length t.frames) queue_size)) [
  | inr e ↦ rw e b
  | inl e ↦ rw e (record {
    assembly_0 = b.assembly_0;
    assembly_1 = b.assembly_1;
    queued = omega (arith, ltb→lt (length t.frames) queue_size e, length-append t.frames (f ∷ []));
    sent = All-append Fits t.frames (f ∷ []) b.sent (h, tt);
  })
]

put_connection-InBounds :
    (slot : ℕ) (c : ScaleConnection) (t : Transport)
    → Fits c.assembly
    → InBounds t
    → InBounds (put_connection slot c t)
unfolding put_connection
put_connection-InBounds slot c t h b = elim (Bool-cases (slot == 1)) [
  | inl e ↦
      rw e (record { assembly_0 = b.assembly_0; assembly_1 = h; queued = b.queued; sent = b.sent })
  | inr e ↦
      rw e (record { assembly_0 = h; assembly_1 = b.assembly_1; queued = b.queued; sent = b.sent })
]

connection_for-Fits :
    (slot : ℕ) (t : Transport) → InBounds t → Fits (connection_for slot t).assembly
unfolding connection_for
connection_for-Fits slot t b = ground (arith, b.assembly_0, b.assembly_1)

on_disconnect-InBounds :
    (slot generation : ℕ) (t : Transport) → InBounds t → InBounds (on_disconnect slot generation t)
unfolding on_disconnect
on_disconnect-InBounds slot generation t b =
    let c = connection_for slot t in
    let p =
      put_connection-InBounds slot
        (record c { disconnect_reported_generation = generation; assembly = no_frame }) t
        (omega arith) b in
    elim (Bool-cases (c.disconnect_reported_generation == generation)) [
      | inl e ↦ rw e p
      | inr e ↦ rw e (
          send_frame-InBounds
            (record { slot = slot; generation = generation; kind = 2; bytes = [] }) _ (omega arith)
            p)
    ]

append_part-Fits :
    (total offset n : ℤ) (part : List ℕ) (a b : Frame)
    → append_part total offset n part a ≡ some b
    → Fits b
append_part-Fits (pos total) (pos offset) (pos n) part a b e =
    let l = length-append a.bytes (take n part) in ground (arith, length-take n part)
append_part-Fits (negsuc total) (pos offset) (pos n) part a b e =
    let l = length-append a.bytes (take n part) in ground (arith, length-take n part)
append_part-Fits total (negsuc offset) n part a b e = ground arith
append_part-Fits total (pos offset) (negsuc n) part a b e = ground arith

store_part-InBounds :
    (slot : ℕ) (total : ℤ) (a : Frame) (o : Option Frame) (t : Transport)
    → Fits a
    → ((b : Frame) → o ≡ some b → Fits b)
    → InBounds t
    → InBounds (store_part slot total a o t)
store_part-InBounds slot total a none t h f b =
    put_connection-InBounds slot (record (connection_for slot t) { assembly = a }) t h b
store_part-InBounds slot total a (some g) t h f b =
    let p =
      put_connection-InBounds slot (record (connection_for slot t) { assembly = g }) t (f g refl)
        b in
    elim (Bool-cases (equals total (length g.bytes))) [
      | inl e ↦ rw e (send_frame-InBounds g _ (f g refl) p)
      | inr e ↦ rw e p
    ]

begin_message-Fits :
    (slot generation : ℕ) (d : EventData) (a : Frame)
    → Fits a
    → Fits (begin_message slot generation d a)
unfolding begin_message
begin_message-Fits slot generation d a h = ground arith

on_data-InBounds :
    (slot generation : ℕ) (d : EventData) (t : Transport)
    → InBounds t
    → InBounds (on_data slot generation d t)
unfolding on_data
on_data-InBounds slot generation d t b =
    let a = begin_message slot generation d (connection_for slot t).assembly in
    let h =
      begin_message-Fits slot generation d (connection_for slot t).assembly
        (connection_for-Fits slot t b) in
    let p =
      store_part-InBounds slot d.payload_len a
        (append_part d.payload_len d.payload_offset d.data_len d.data_ptr a) t h
        (λ g. append_part-Fits d.payload_len d.payload_offset d.data_len d.data_ptr a g) b in
    elim (Bool-cases (not (d.op_code == 1) && not (d.op_code == 2))) [
      | inl e ↦ rw e b
      | inr e ↦ rw e p
    ]

-- Whatever the WebSocket client reports, the bytes put together never exceed the 2072 of a frame,
-- nor do those of any frame in the queue, and the queue never holds more than eight frames.
pub socket_event-InBounds :
    (token : ℕ) (e : Event) (t : Transport) → InBounds t → InBounds (socket_event token e t)
unfolding socket_event
socket_event-InBounds token e t b =
    elim (Bool-cases (token / 2 == (connection_for (token % 2) t).generation)) [
      | inr f ↦ rw f b
      | inl f ↦ rw f (event e)
    ]
  where
    event : (e : Event) → InBounds (on_event (token % 2) (token / 2) e t)
    event connected = send_frame-InBounds _ t (omega arith) b
    event disconnected = on_disconnect-InBounds (token % 2) (token / 2) t b
    event error = on_disconnect-InBounds (token % 2) (token / 2) t b
    event (received d) = on_data-InBounds (token % 2) (token / 2) d t b
    event other = b
