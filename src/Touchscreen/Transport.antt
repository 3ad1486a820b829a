-- ===== src/Touchscreen/Transport.antt =====
-- touchscreen/main/connection_transport.h and connection_transport.cpp: the events of the WebSocket
-- client become frames in a queue, and a message that comes in parts is put together. The queues,
-- which the source creates with eight places, are lists; the calls that stop and destroy a client
-- return nothing and are left out. `bytes` holds the `length` bytes of a frame.
use keg_scale_espdisplay.Prelude.{
  ℕ, ◌+◌, ◌/◌, ◌%◌, Bool, true, false, not, ◌&&◌, ◌||◌, Option, none, some, List, [], ◌∷◌, ◌++◌,
  ltb, ◌==◌, if◌then◌else◌, length, take, ℤ, pos, negsuc,
}
pub mod Bounds
pub mod Messages
pub mod Examples

-- CL_MAX_FRAME, with CL_MAX_PLAIN of components/controller_link.
abbrev pub max_frame : ℕ
max_frame = 2048 + 24

abbrev pub queue_size : ℕ
queue_size = 8

pub record Frame : Type 0 where
  pub slot : ℕ
  pub generation : ℕ
  pub kind : ℕ
  pub bytes : List ℕ

abbrev pub no_frame : Frame
no_frame = record { slot = 0; generation = 0; kind = 0; bytes = [] }

-- The fields of `ScaleConnection` that this file uses.
pub record ScaleConnection : Type 0 where
  pub assembly : Frame
  pub generation : ℕ
  pub disconnect_reported_generation : ℕ
  pub retirement_pending : Bool

pub record RetiredTransport : Type 0 where
  pub handle : ℕ
  pub slot : ℕ
  pub generation : ℕ

pub record Transport : Type 0 where
  pub connection_0 : ScaleConnection
  pub connection_1 : ScaleConnection
  pub frames : List Frame
  pub retired_transports : List RetiredTransport

unfoldable pub connection_for : ℕ → Transport → ScaleConnection
connection_for slot t = if slot == 1 then t.connection_1 else t.connection_0

-- A write through the reference that `connection_for` returns.
unfoldable pub put_connection : ℕ → ScaleConnection → Transport → Transport
put_connection slot c t =
    if slot == 1 then record t { connection_1 = c } else record t { connection_0 = c }

-- `xQueueSend(frames, &f, 0)`; a full queue drops the frame, and the source only logs it.
unfoldable pub send_frame : Frame → Transport → Transport
send_frame f t =
    if ltb (length t.frames) queue_size then record t { frames = t.frames ++ f ∷ [] } else t

unfoldable pub connection_receive_frame : Transport → Transport × Option Frame
connection_receive_frame t = elim t.frames [
  | [] ↦ (t, none)
  | f ∷ rest ↦ (record t { frames = rest }, some f)
]

-- A handle is a number, 0 for `nullptr`.
unfoldable pub retire_transport_async : ℕ → ℕ → ℕ → Transport → Transport × Bool
unfolding connection_for put_connection
retire_transport_async slot handle generation t =
    if handle == 0
    then (t, true)
    else if ltb (length t.retired_transports) queue_size
    then (
      record (put_connection slot (record (connection_for slot t) { retirement_pending = true })
          t) {
            retired_transports =
                t.retired_transports
                ++ record { handle = handle; slot = slot; generation = generation } ∷ [];
          },
      true,
    )
    else (
      put_connection slot (record (connection_for slot t) { retirement_pending = false }) t,
      false,
    )

-- One round of `transport_retirement_task`.
unfoldable pub transport_retirement : Transport → Transport
unfolding connection_for put_connection
transport_retirement t = elim t.retired_transports [
  | [] ↦ t
  | r ∷ rest ↦
      let t' = record t { retired_transports = rest } in
      if r.handle == 0
      then t'
      else put_connection r.slot (record (connection_for r.slot t') { retirement_pending = false })
          t'
]

-- `esp_websocket_event_data_t`: the three lengths are signed, and `data_ptr` is the memory that
-- holds the part.
pub record EventData : Type 0 where
  pub op_code : ℕ
  pub payload_len : ℤ
  pub payload_offset : ℤ
  pub data_len : ℤ
  pub data_ptr : List ℕ

pub data Event : Type 0 where
  connected : Event
  disconnected : Event
  error : Event
  received : EventData → Event
  other : Event

abbrev pub is_zero : ℤ → Bool
is_zero (pos n) = n == 0
is_zero (negsuc n) = false

abbrev pub equals : ℤ → ℕ → Bool
equals (pos n) m = n == m
equals (negsuc n) m = false

-- The branches for WEBSOCKET_EVENT_DISCONNECTED and WEBSOCKET_EVENT_ERROR.
unfoldable pub on_disconnect : ℕ → ℕ → Transport → Transport
unfolding connection_for put_connection send_frame
on_disconnect slot generation t =
    let c = connection_for slot t in
    let t₁ =
      put_connection slot
        (record c { disconnect_reported_generation = generation; assembly = no_frame }) t in
    if c.disconnect_reported_generation == generation
    then t₁
    else send_frame (record { slot = slot; generation = generation; kind = 2; bytes = [] }) t₁

-- `payload_offset == 0` starts a message.
unfoldable pub begin_message : ℕ → ℕ → EventData → Frame → Frame
begin_message slot generation d a =
    if is_zero d.payload_offset
    then record {
      slot = slot;
      generation = generation;
      kind = if d.op_code == 1 then 3 else 4;
      bytes = [];
    }
    else a

-- The part is put behind the bytes that are there; nothing where it is rejected.
abbrev pub append_part : ℤ → ℤ → ℤ → List ℕ → Frame → Option Frame
append_part (pos total) (pos offset) (pos n) part a =
    if ltb max_frame total || not (offset == length a.bytes) || ltb max_frame (length a.bytes + n)
    then none
    else some (record a { bytes = a.bytes ++ take n part })
append_part (negsuc total) (pos offset) (pos n) part a =
    if not (offset == length a.bytes) || ltb max_frame (length a.bytes + n)
    then none
    else some (record a { bytes = a.bytes ++ take n part })
append_part total (negsuc offset) n part a = none
append_part total (pos offset) (negsuc n) part a = none

abbrev pub store_part : ℕ → ℤ → Frame → Option Frame → Transport → Transport
store_part slot total a none t =
    put_connection slot (record (connection_for slot t) { assembly = a }) t
store_part slot total a (some b) t =
    let t₁ = put_connection slot (record (connection_for slot t) { assembly = b }) t in
    if equals total (length b.bytes) then send_frame b t₁ else t₁

-- The branch for WEBSOCKET_EVENT_DATA.
unfoldable pub on_data : ℕ → ℕ → EventData → Transport → Transport
unfolding begin_message connection_for put_connection send_frame
on_data slot generation d t =
    if not (d.op_code == 1) && not (d.op_code == 2)
    then t
    else let a = begin_message slot generation d (connection_for slot t).assembly in
      store_part slot d.payload_len a
        (append_part d.payload_len d.payload_offset d.data_len d.data_ptr a) t

abbrev pub on_event : ℕ → ℕ → Event → Transport → Transport
on_event slot generation connected t =
    send_frame (record { slot = slot; generation = generation; kind = 1; bytes = [] }) t
on_event slot generation disconnected t = on_disconnect slot generation t
on_event slot generation error t = on_disconnect slot generation t
on_event slot generation (received d) t = on_data slot generation d t
on_event slot generation other t = t

-- `arg` holds the generation and, in its lowest bit, the slot.
unfoldable pub socket_event : ℕ → Event → Transport → Transport
unfolding connection_for send_frame on_disconnect on_data
socket_event token e t =
    let slot = token % 2 in
    let generation = token / 2 in
    if not (generation == (connection_for slot t).generation)
    then t
    else on_event slot generation e t
