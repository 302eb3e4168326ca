-- ===== src/Object/Channel.antt =====
-- Channels: src/object/channel.rs. An endpoint knows its peer by number only.
pub mod Messages
pub mod Peers
mod Tests
use rustux.Base.{
  ℕ, zero, suc, ◌+◌, ◌-◌, ◌*◌, ◌%◌, ◌^◌, ◌==◌, ltb, min, if◌then◌else◌, Bool, true, false, not,
  Option, none, some, List, [], ◌∷◌, ◌++◌, length, take, Result, ok, err, Error, channel_not_active,
  message_too_large, too_many_handles, channel_full, peer_closed, no_messages, Outcome, returns,
  panics,
}
use rustux.Object.Rights
use rustux.Object.Handle.{KernelObjectBase, Handle, Store, object, dec, clone}
use rustux.Object.Event.{Event, signal}
use rustux.Object.Event

abbrev pub max_msg_size : ℕ
max_msg_size = 65536

abbrev pub max_msg_handles : ℕ
max_msg_handles = 64

pub record Message : Type 0 where
  pub bytes : List ℕ
  pub handles : List Handle

pub data ChannelState : Type 0 where
  active peer_has_closed closed : ChannelState

abbrev pub is_active : ChannelState → Bool
is_active active = true
is_active _ = false

abbrev pub is_peer_closed : ChannelState → Bool
is_peer_closed peer_has_closed = true
is_peer_closed _ = false

pub record Channel : Type 0 where
  pub base : KernelObjectBase
  pub id : ℕ
  pub peer : Option ℕ
  pub queue : List Message
  pub max_queue_bytes : ℕ
  pub queue_size : ℕ
  pub read_event : Event
  pub write_event : Event
  pub state : ChannelState

pub record ReadResult : Type 0 where
  pub bytes_read : ℕ
  pub handles_read : ℕ

-- The number is the value of `NEXT_CHANNEL_ID`.
unfoldable pub alloc_channel_id : ℕ → ℕ × ℕ
alloc_channel_id next_channel_id = (next_channel_id, (next_channel_id + 1) % 2 ^ 64)

-- The last argument is the value of `NEXT_EVENT_ID`.
unfoldable pub new : ℕ → ℕ → ℕ → Channel × ℕ
unfolding Event.new
new id max_queue_bytes next_event_id =
    let (read_event, next) = Event.new false 0 next_event_id in
    let (write_event, next') = Event.new true 0 next in
    (
      record {
        base = object Rights.channel;
        id = id;
        peer = none;
        queue = [];
        max_queue_bytes = max_queue_bytes;
        queue_size = 0;
        read_event = read_event;
        write_event = write_event;
        state = active;
      },
      next',
    )

-- The arguments are the values of `NEXT_CHANNEL_ID` and `NEXT_EVENT_ID`.
unfoldable pub create : ℕ → ℕ → (Channel × Channel) × ℕ × ℕ
unfolding alloc_channel_id new
create next_channel_id next_event_id =
    let (id_a, next) = alloc_channel_id next_channel_id in
    let (id_b, next') = alloc_channel_id next in
    let (channel_a, events) = new id_a (256 * 1024) next_event_id in
    let (channel_b, events') = new id_b (256 * 1024) events in
    ((record channel_a { peer = some id_b }, record channel_b { peer = some id_a }), next', events')

-- `to_vec` and the loop of `read` clone handles one after the other; a clone has a new id.
unfoldable pub clone_all : List Handle → Store → List Handle × Store
clone_all [] s = ([], s)
clone_all (h ∷ hs) s = let (k, s') = clone h s in let (ks, s'') = clone_all hs s' in (k ∷ ks, s'')

abbrev pub WriteOutcome : Type 0
WriteOutcome = Outcome (Option (Result Error ℕ × Channel × Store))

-- What `write` comes to once its message is in the queue and the read event has been signaled.
abbrev pub written : List ℕ → List Handle × Store → Channel → Outcome (Option Event) → WriteOutcome
written bytes (handles, s) ch panics = panics
written bytes (handles, s) ch (returns none) = returns none
written bytes (handles, s) ch (returns (some event)) = returns (
    some (
      ok (length bytes),
      record ch {
        queue = ch.queue ++ (record { bytes = bytes; handles = handles } ∷ []);
        queue_size = (ch.queue_size + length bytes) % 2 ^ 64;
        read_event = event;
      },
      s,
    ))

unfoldable pub write : List ℕ → List Handle → Channel → Store → WriteOutcome
unfolding clone_all
write bytes handles ch s =
    if not (is_active ch.state)
    then returns (some (err channel_not_active, ch, s))
    else if ltb max_msg_size (length bytes)
    then returns (some (err message_too_large, ch, s))
    else if ltb max_msg_handles (length handles)
    then returns (some (err too_many_handles, ch, s))
    else if ltb ch.max_queue_bytes ((ch.queue_size + length bytes) % 2 ^ 64)
    then returns (some (err channel_full, ch, s))
    else written bytes (clone_all handles s) ch (signal ch.read_event)

-- The elements of the first list are copied over the second as far as it goes.
abbrev pub copied {ℓ} : {A : Type ℓ} → List A → List A → List A
copied [] buf = buf
copied (x ∷ xs) [] = []
copied (x ∷ xs) (b ∷ buf) = x ∷ copied xs buf

-- The result, the two buffers, the endpoint and memory.
abbrev pub ReadOutcome : Type 0
ReadOutcome = Outcome (Option (Result Error ReadResult × List ℕ × List Handle × Channel × Store))

-- What `read` comes to for a message that it has popped, its handles cloned as far as the buffer
-- goes, once the write event has been signaled.
abbrev pub received :
    Message
    → List Message
    → List ℕ
    → List Handle
    → List Handle × Store
    → Channel
    → Outcome (Option Event)
    → ReadOutcome
received msg rest buf handle_buf (handles, s) ch panics = panics
received msg rest buf handle_buf (handles, s) ch (returns none) = returns none
received msg rest buf handle_buf (handles, s) ch (returns (some event)) = returns (
    some (
      ok (record {
        bytes_read = min (length buf) (length msg.bytes);
        handles_read = min (length handle_buf) (length msg.handles);
      }),
      copied msg.bytes buf,
      copied handles handle_buf,
      record ch {
        queue = rest;
        queue_size = (ch.queue_size + (2 ^ 64 - length msg.bytes)) % 2 ^ 64;
        write_event = event;
      },
      s,
    ))

-- What `read` comes to, by the messages that are queued.
unfoldable pub read_from : List Message → List ℕ → List Handle → Channel → Store → ReadOutcome
read_from [] buf handle_buf ch s =
    if is_peer_closed ch.state
    then returns (some (err peer_closed, buf, handle_buf, ch, s))
    else returns (some (err no_messages, buf, handle_buf, ch, s))
read_from (msg ∷ rest) buf handle_buf ch s =
    received msg rest buf handle_buf
      (clone_all (take (min (length handle_buf) (length msg.handles)) msg.handles) s) ch
      (signal ch.write_event)

-- The buffers are given and given back.
unfoldable pub read : List ℕ → List Handle → Channel → Store → ReadOutcome
unfolding read_from
read buf handle_buf ch s = read_from ch.queue buf handle_buf ch s

-- What `close` comes to once the read event has been signaled.
abbrev pub closed_with : Channel → Outcome (Option Event) → Outcome (Option (Bool × Channel))
closed_with ch panics = panics
closed_with ch (returns none) = returns none
closed_with ch (returns (some event)) = returns (
    some (
      ch.base.ref_count == 1,
      record ch { base = dec ch.base; read_event = event; state = closed },
    ))

unfoldable pub close : Channel → Outcome (Option (Bool × Channel))
close ch = closed_with ch (signal ch.read_event)
