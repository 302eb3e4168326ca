-- ===== src/Object/Channel/Tests.antt =====
-- Runs of a channel, and its theorems at concrete messages.
use rustux.Base.{
  ℕ, ◌≡◌, refl, none, some, List, [], ◌∷◌, arith, take, ok, err, no_messages, returns, panics,
  replicate,
}
use rustux.Object.Rights
use rustux.Object.Handle.{Handle, Store, object}
use rustux.Object.Event
use rustux.Object.Channel.{Channel, ReadResult, create, new, write, read, close}
use rustux.Object.Channel.Messages.{IsValid, read-write}
use rustux.Object.Channel.Peers.{Call, Ends, left, writes, closes, step, run, never_delivered}
use rustux.Sync.WaitQueue
use rustux.Sync.WaitQueue.Wakes.{new-IsWaiting}

abbrev memory : Store
memory = record { objects = λ a. object Rights.vmo; next_handle_id = 7 }

abbrev ends : Channel × Channel
ends = (create 1 1).0

created-IsValid : IsValid ends.0
unfolding create new Event.new
created-IsValid = record {
  counted = refl;
  fits = omega arith;
  small = omega arith;
  readers = new-IsWaiting;
  writers = new-IsWaiting;
}

abbrev gift : Handle
gift = record { id = 3; base = some 4096; rights = 0x23 }

after_write : Channel × Store
after_write = elim (write (5 ∷ 6 ∷ []) (gift ∷ []) ends.0 memory) [
  | panics ↦ (ends.0, memory)
  | returns none ↦ (ends.0, memory)
  | returns (some (r, ch, s)) ↦ (ch, s)
]

writes_two :
    write (5 ∷ 6 ∷ []) (gift ∷ []) ends.0 memory
    ≡ returns (some (ok 2, after_write.0, after_write.1))
unfolding after_write write create new Event.signal WaitQueue.wake_all WaitQueue.new
    WaitQueue.pop_front
writes_two = refl

no_queue : ends.0.queue ≡ []
unfolding create new
no_queue = refl

read-write_example :
    (r : ReadResult) × (buf : List ℕ) × (handle_buf : List Handle) × (ch : Channel) × (s : Store)
    × (read (replicate 8 0) [] after_write.0 after_write.1
        ≡ returns (some (ok r, buf, handle_buf, ch, s)))
    × (r.bytes_read ≡ 2)
    × (take 2 buf ≡ 5 ∷ 6 ∷ [])
    × (ch.queue ≡ [])
read-write_example =
    read-write (5 ∷ 6 ∷ []) (gift ∷ []) ends.0 after_write.0 memory after_write.1 2 (replicate 8 0)
      [] created-IsValid no_queue writes_two (omega arith)

abbrev script : List Call
script = writes left (1 ∷ []) [] ∷ closes left ∷ []

after_script : Ends
after_script = elim (run script (ends.0, ends.1, memory)) [
  | none ↦ (ends.0, ends.1, memory)
  | some e ↦ e
]

never_delivered_example :
    read (0 ∷ []) [] after_script.1 after_script.2
    ≡ returns (some (err no_messages, 0 ∷ [], [], after_script.1, after_script.2))
unfolding after_script run write close create new step Event.signal WaitQueue.wake_all WaitQueue.new
    WaitQueue.pop_front
never_delivered_example =
    never_delivered script 1 1 memory after_script.0 after_script.1 after_script.2 (0 ∷ []) [] tt
      refl
