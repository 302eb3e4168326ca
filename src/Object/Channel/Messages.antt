-- ===== src/Object/Channel/Messages.antt =====
-- What `write` and `read` of src/object/channel.rs do with the messages of an endpoint.
use rustux.Base.{
  ℕ, suc, ◌+◌, ◌-◌, ◌%◌, ◌^◌, ◌≤◌, ◌<◌, ◌≡◌, ◌⊎◌, inl, inr, refl, ap, ◌∙◌, sym, subst, true, false,
  some, List, [], ◌∷◌, ◌++◌, arith, length, take, min, Bool-cases, ok, err, Error,
  channel_not_active, message_too_large, too_many_handles, channel_full, peer_closed, no_messages,
  returns, ltb, if◌then◌else◌,
}
use rustux.Object.Handle.{Handle, Store, clone}
use rustux.Object.Event.{Event, signal}
use rustux.Object.Channel.{
  Message, Channel, ReadResult, is_active, is_peer_closed, max_msg_size, max_msg_handles, clone_all,
  write, copied, read_from, read, ReadOutcome,
}
use rustux.Sync.WaitQueue.Wakes.{IsWaiting, wake_all_lem}

-- The bytes of the messages in a queue.
abbrev pub total : List Message → ℕ
total [] = 0
total (m ∷ ms) = length m.bytes + total ms

total-append :
    (ms : List Message) (m : Message) → total (ms ++ (m ∷ [])) ≡ total ms + length m.bytes
total-append [] m = omega arith
total-append (x ∷ ms) m = omega (arith, total-append ms m)

-- The queue's bytes have been counted and are within the limit, and nobody waits on the events, since
-- a thread that waits for an event spins.
pub record IsValid (ch : Channel) : Type 0 where
  pub counted : ch.queue_size ≡ total ch.queue
  pub fits : ch.queue_size ≤ ch.max_queue_bytes
  pub small : ch.max_queue_bytes < 2 ^ 63
  pub readers : IsWaiting ch.read_event.waiters []
  pub writers : IsWaiting ch.write_event.waiters []

pub signal_lem :
    (e : Event)
    → IsWaiting e.waiters []
    → (e' : Event) × (signal e ≡ returns (some e')) × (e'.signaled ≡ true) × IsWaiting e'.waiters []
unfolding signal
signal_lem e w =
    let (wq, f, w') = wake_all_lem e.waiters [] w in
    (record e { signaled = true; waiters = wq }, rw (f, signal) refl, refl, w')

-- Handles to the same objects with the same rights.
abbrev pub SameHandles : List Handle → List Handle → Type 0
SameHandles [] [] = Unit {0}
SameHandles [] (k ∷ ks) = true ≡ false
SameHandles (h ∷ hs) [] = true ≡ false
SameHandles (h ∷ hs) (k ∷ ks) = (k.base ≡ h.base) × (k.rights ≡ h.rights) × SameHandles hs ks

-- Cloned handles are to the same objects, and no reference is counted.
pub clone_all_lem :
    (hs : List Handle) (s : Store)
    → SameHandles hs (clone_all hs s).0
      × ((clone_all hs s).1.objects ≡ s.objects)
      × (length (clone_all hs s).0 ≡ length hs)
unfolding clone_all clone
clone_all_lem [] s = (tt, refl, refl)
clone_all_lem (h ∷ hs) s =
    let (same, objects, size) = clone_all_lem hs (clone h s).1 in
    ((refl, refl, same), objects, ap suc size)

-- Why a message is refused.
pub data Refuses (bytes : List ℕ) (handles : List Handle) (ch : Channel) : Error → Type 0 where
  inactive : is_active ch.state ≡ false → Refuses bytes handles ch channel_not_active
  too_large : max_msg_size < length bytes → Refuses bytes handles ch message_too_large
  too_many : max_msg_handles < length handles → Refuses bytes handles ch too_many_handles
  full : ch.max_queue_bytes < total ch.queue + length bytes → Refuses bytes handles ch channel_full

-- When a message is accepted.
pub record Accepts (bytes : List ℕ) (handles : List Handle) (ch : Channel) : Type 0 where
  pub live : is_active ch.state ≡ true
  pub size : length bytes ≤ max_msg_size
  pub handle_count : length handles ≤ max_msg_handles
  pub room : total ch.queue + length bytes ≤ ch.max_queue_bytes

-- `write` always returns. It refuses a message for its reason and changes nothing, or puts it at the
-- end of the queue, with handles to the same objects, and keeps the endpoint valid.
pub write_lem :
    (bytes : List ℕ) (handles : List Handle) (ch : Channel) (s : Store)
    → IsValid ch
    → ((e : Error) × Refuses bytes handles ch e
        × (write bytes handles ch s ≡ returns (some (err e, ch, s))))
      ⊎ (Accepts bytes handles ch
          × (ch' : Channel) × (write bytes handles ch s
              ≡ returns (some (ok (length bytes), ch', (clone_all handles s).1)))
          × (ch'.queue
              ≡ ch.queue ++ (record { bytes = bytes; handles = (clone_all handles s).0 } ∷ []))
          × (ch'.state ≡ ch.state)
          × (ch'.read_event.signaled ≡ true)
          × IsValid ch')
unfolding write
write_lem bytes handles ch s v = elim (Bool-cases (is_active ch.state)) [
  | inr dead ↦ inl (channel_not_active, inactive dead, rw (dead, write) refl)
  | inl live ↦ elim (Bool-cases (ltb max_msg_size (length bytes))) [
    | inl big ↦ inl (message_too_large, too_large (ground arith), rw (live, big, write) refl)
    | inr sized ↦ elim (Bool-cases (ltb max_msg_handles (length handles))) [
      | inl many ↦
          inl (too_many_handles, too_many (ground arith), rw (live, sized, many, write) refl)
      | inr few ↦
          elim (Bool-cases (ltb ch.max_queue_bytes ((ch.queue_size + length bytes) % 2 ^ 64))) [
            | inl over ↦ inl (
              channel_full,
              full (ground (arith, v.counted, v.fits, v.small)),
              rw (live, sized, few, over, write) refl,
            )
            | inr room ↦
                let (event, f, set_signal, w) = signal_lem ch.read_event v.readers in
                let msg : Message = record { bytes = bytes; handles = (clone_all handles s).0 } in
                let sum : (ch.queue_size + length bytes) % 2 ^ 64 ≡ total ch.queue + length bytes =
                  ground (arith, v.counted, v.fits, v.small) in
                inr (
                  record {
                    live = live;
                    size = ground arith;
                    handle_count = ground arith;
                    room = ground (arith, sum);
                  },
                  record ch {
                    queue = ch.queue ++ (msg ∷ []);
                    queue_size = (ch.queue_size + length bytes) % 2 ^ 64;
                    read_event = event;
                  },
                  rw (live, sized, few, room, f, write) refl,
                  refl,
                  refl,
                  set_signal,
                  record {
                    counted = sum ∙ sym (total-append ch.queue msg);
                    fits = ground (arith, room);
                    small = v.small;
                    readers = w;
                    writers = v.writers;
                  },
                )
          ]
    ]
  ]
]

-- What `read` does with the messages that are queued.
abbrev pub Reads : List Message → List ℕ → List Handle → Channel → Store → ReadOutcome → Type 0
Reads ms buf handle_buf ch s o =
    ((ms ≡ [])
      × (o
          ≡ returns (
              some (
                err (if is_peer_closed ch.state then peer_closed else no_messages),
                buf,
                handle_buf,
                ch,
                s,
              ))))
    ⊎ ((msg : Message) × (rest : List Message) × (r : ReadResult) × (ch' : Channel) × (taken : List
            Handle
          × Store)
        × (ms ≡ msg ∷ rest)
        × (taken ≡ clone_all (take (min (length handle_buf) (length msg.handles)) msg.handles) s)
        × (o ≡ returns (some (ok r, copied msg.bytes buf, copied taken.0 handle_buf, ch', taken.1)))
        × (r.bytes_read ≡ min (length buf) (length msg.bytes))
        × (r.handles_read ≡ min (length handle_buf) (length msg.handles))
        × (ch'.queue ≡ rest)
        × (ch'.write_event.signaled ≡ true)
        × IsValid ch')

read_from-Reads :
    (ms : List Message) (buf : List ℕ) (handle_buf : List Handle) (ch : Channel) (s : Store)
    → IsValid ch
    → ch.queue ≡ ms
    → Reads ms buf handle_buf ch s (read_from ms buf handle_buf ch s)
unfolding read_from
read_from-Reads [] buf handle_buf ch s v e = elim (Bool-cases (is_peer_closed ch.state)) [
  | inl gone ↦ inl (refl, rw gone refl)
  | inr there ↦ inl (refl, rw there refl)
]
read_from-Reads (msg ∷ rest) buf handle_buf ch s v e =
    let (event, f, set_signal, w) = signal_lem ch.write_event v.writers in
    let left : (ch.queue_size + (2 ^ 64 - length msg.bytes)) % 2 ^ 64 ≡ total rest =
      omega (arith, v.counted, v.fits, v.small, ap total e) in
    inr (
      msg,
      rest,
      record {
        bytes_read = min (length buf) (length msg.bytes);
        handles_read = min (length handle_buf) (length msg.handles);
      },
      record ch {
        queue = rest;
        queue_size = (ch.queue_size + (2 ^ 64 - length msg.bytes)) % 2 ^ 64;
        write_event = event;
      },
      clone_all (take (min (length handle_buf) (length msg.handles)) msg.handles) s,
      refl,
      refl,
      rw f refl,
      refl,
      refl,
      refl,
      set_signal,
      record {
        counted = left;
        fits = omega (arith, v.counted, v.fits, ap total e, left);
        small = v.small;
        readers = v.readers;
        writers = w;
      },
    )

-- `read` always returns. With no message it fails and changes nothing; otherwise it takes the first
-- message, copies as much of it as the buffers hold, drops the rest of it, and keeps the endpoint valid.
pub read_lem :
    (buf : List ℕ) (handle_buf : List Handle) (ch : Channel) (s : Store)
    → IsValid ch
    → Reads ch.queue buf handle_buf ch s (read buf handle_buf ch s)
unfolding read
read_lem buf handle_buf ch s v = read_from-Reads ch.queue buf handle_buf ch s v refl

-- Data that fits in the buffer arrives whole.
take-copied : (xs buf : List ℕ) → length xs ≤ length buf → take (length xs) (copied xs buf) ≡ xs
take-copied [] buf h = refl
take-copied (x ∷ xs) [] h = absurd (omega arith)
take-copied (x ∷ xs) (b ∷ buf) h = ap (◌∷◌ x) (take-copied xs buf (omega arith))

-- On a valid endpoint without messages, the bytes that have been written are what the same endpoint, and
-- not its peer, reads next, if the byte buffer is large enough, and the queue is empty again.
pub read-write :
    (bytes : List ℕ) (handles : List Handle) (ch ch' : Channel) (s s' : Store) (n : ℕ)
    (buf : List ℕ) (handle_buf : List Handle)
    → IsValid ch
    → ch.queue ≡ []
    → write bytes handles ch s ≡ returns (some (ok n, ch', s'))
    → length bytes ≤ length buf
    → (r : ReadResult) × (buf' : List ℕ) × (handle_buf' : List Handle) × (ch'' : Channel)
      × (s'' : Store) × (read buf handle_buf ch' s'
          ≡ returns (some (ok r, buf', handle_buf', ch'', s'')))
      × (r.bytes_read ≡ length bytes)
      × (take (length bytes) buf' ≡ bytes)
      × (ch''.queue ≡ [])
read-write bytes handles ch ch' s s' n buf handle_buf v empty e h =
    elim (write_lem bytes handles ch s v) [
      | inl (_, _, f) ↦ cc
      | inr (_, c, f, queued, _, _, v') ↦
          let same : c ≡ ch' = cc in
          let msg : Message = record { bytes = bytes; handles = (clone_all handles s).0 } in
          let holds : ch'.queue ≡ msg ∷ [] =
            ap (λ x. x.queue) (sym same) ∙ queued ∙ ap (λ ms. ms ++ (msg ∷ [])) empty in
          elim (read_lem buf handle_buf ch' s' (subst IsValid same v')) [
            | inl (none_left, _) ↦ cc
            | inr (m, rest, r, c', t, split, _, g, count, _, left, _, _) ↦
                let it : msg ≡ m = ap (first msg) (sym holds ∙ split) in
                let end : [] ≡ rest = ap tail_of (sym holds ∙ split) in
                let data_same : m.bytes ≡ bytes = ap (λ x. x.bytes) (sym it) in
                (
                  r,
                  copied m.bytes buf,
                  copied t.0 handle_buf,
                  c',
                  t.1,
                  g,
                  count ∙ omega (arith, ap length data_same),
                  ap (λ xs. take (length bytes) (copied xs buf)) data_same
                      ∙ take-copied bytes buf h,
                  left ∙ sym end,
                )
          ]
    ]
  where
    first : Message → List Message → Message
    first d [] = d
    first d (x ∷ xs) = x

    tail_of : List Message → List Message
    tail_of [] = []
    tail_of (x ∷ xs) = xs
