-- ===== src/Object/Channel/Peers.antt =====
-- What one endpoint of src/object/channel.rs gets of what the other one writes.
use rustux.Base.{
  ℕ, ◌≡◌, inl, inr, refl, ap, ◌∙◌, sym, subst, true, false, Bool, Option, none, some, List, [], ◌∷◌,
  err, no_messages, Outcome, returns, panics, Option-cases,
}
use rustux.Object.Handle.{Handle, Store, dec}
use rustux.Object.Event.{Event, signal}
use rustux.Object.Channel.{
  Channel, closed, is_peer_closed, write, read_from, read, ReadOutcome, WriteOutcome, close,
  closed_with, create, new,
}

pub data Side : Type 0 where
  left right : Side

-- The calls that the two owners of a channel make.
pub data Call : Type 0 where
  writes : Side → List ℕ → List Handle → Call
  reads : Side → List ℕ → List Handle → Call
  closes : Side → Call

-- Both endpoints, and memory.
abbrev pub Ends : Type 0
Ends = Channel × Channel × Store

abbrev pub on_left : Ends → Channel → Store → Ends
on_left (a, b, s) a' s' = (a', b, s')

abbrev pub on_right : Ends → Channel → Store → Ends
on_right (a, b, s) b' s' = (a, b', s')

abbrev pub after_write : (Channel → Store → Ends) → WriteOutcome → Option Ends
after_write put panics = none
after_write put (returns none) = none
after_write put (returns (some (r, ch, s))) = some (put ch s)

abbrev pub after_read : (Channel → Store → Ends) → ReadOutcome → Option Ends
after_read put panics = none
after_read put (returns none) = none
after_read put (returns (some (r, buf, handle_buf, ch, s))) = some (put ch s)

abbrev pub after_close : (Channel → Ends) → Outcome (Option (Bool × Channel)) → Option Ends
after_close put panics = none
after_close put (returns none) = none
after_close put (returns (some (last, ch))) = some (put ch)

unfoldable pub step : Call → Ends → Option Ends
step (writes left bytes handles) (a, b, s) =
    after_write (on_left (a, b, s)) (write bytes handles a s)
step (writes right bytes handles) (a, b, s) =
    after_write (on_right (a, b, s)) (write bytes handles b s)
step (reads left buf hs) (a, b, s) = after_read (on_left (a, b, s)) (read buf hs a s)
step (reads right buf hs) (a, b, s) = after_read (on_right (a, b, s)) (read buf hs b s)
step (closes left) (a, b, s) = after_close (λ a'. (a', b, s)) (close a)
step (closes right) (a, b, s) = after_close (λ b'. (a, b', s)) (close b)

abbrev pub then_run : Option Ends → (Ends → Option Ends) → Option Ends
then_run none f = none
then_run (some e) f = f e

unfoldable pub run : List Call → Ends → Option Ends
run [] e = some e
run (c ∷ cs) e = then_run (step c e) (run cs)

-- Nothing is written to the right endpoint.
abbrev pub LeftWrites : List Call → Type 0
LeftWrites [] = Unit {0}
LeftWrites (writes left bytes handles ∷ cs) = LeftWrites cs
LeftWrites (writes right bytes handles ∷ cs) = true ≡ false
LeftWrites (reads side buf hs ∷ cs) = LeftWrites cs
LeftWrites (closes side ∷ cs) = LeftWrites cs

-- An endpoint without messages that does not know of its peer.
abbrev IsIdle : Channel → Type 0
IsIdle ch = (ch.queue ≡ []) × (is_peer_closed ch.state ≡ false)

read-IsIdle :
    (buf : List ℕ) (hs : List Handle) (ch : Channel) (s : Store)
    → IsIdle ch
    → read buf hs ch s ≡ returns (some (err no_messages, buf, hs, ch, s))
unfolding read read_from
read-IsIdle buf hs ch s (empty, alone) = ap (λ ms. read_from ms buf hs ch s) empty ∙ rw alone refl

-- A call on the left endpoint leaves the right one as it is.
module _ (a b a' b' : Channel) (s s' : Store) where
  after_write-left :
      (o : WriteOutcome) → after_write (on_left (a, b, s)) o ≡ some (a', b', s') → b ≡ b'
  after_write-left panics e = cc
  after_write-left (returns none) e = cc
  after_write-left (returns (some (r, ch, m))) e = cc

  after_read-left :
      (o : ReadOutcome) → after_read (on_left (a, b, s)) o ≡ some (a', b', s') → b ≡ b'
  after_read-left panics e = cc
  after_read-left (returns none) e = cc
  after_read-left (returns (some (r, buf, hs, ch, m))) e = cc

  after_close-left :
      (o : Outcome (Option (Bool × Channel)))
      → after_close (λ ch. (ch, b, s)) o ≡ some (a', b', s')
      → b ≡ b'
  after_close-left panics e = cc
  after_close-left (returns none) e = cc
  after_close-left (returns (some (last, ch))) e = cc

  close-IsIdle :
      (o : Outcome (Option Event))
      → IsIdle b
      → after_close (λ ch. (a, ch, s)) (closed_with b o) ≡ some (a', b', s')
      → IsIdle b'
  close-IsIdle panics idle e = cc
  close-IsIdle (returns none) idle e = cc
  close-IsIdle (returns (some ev)) idle e =
      let same : closed_end ev ≡ b' = cc in subst IsIdle same (idle.0, refl)
    where
      closed_end : Event → Channel
      closed_end x = record b { base = dec b.base; read_event = x; state = closed }

right_end : (x y : Ends) → some x ≡ some y → x.1 ≡ y.1
right_end x y h = ap right_of h
  where
    right_of : Option Ends → Channel
    right_of none = x.1
    right_of (some z) = z.1

step-IsIdle :
    (c : Call) (a b a' b' : Channel) (s s' : Store)
    → LeftWrites (c ∷ [])
    → IsIdle b
    → step c (a, b, s) ≡ some (a', b', s')
    → IsIdle b'
unfolding step close
step-IsIdle (writes left bytes handles) a b a' b' s s' l idle e =
    subst IsIdle (after_write-left a b a' b' s s' (write bytes handles a s) e) idle
step-IsIdle (writes right bytes handles) a b a' b' s s' l idle e = cc
step-IsIdle (reads left buf hs) a b a' b' s s' l idle e =
    subst IsIdle (after_read-left a b a' b' s s' (read buf hs a s) e) idle
step-IsIdle (reads right buf hs) a b a' b' s s' l idle e =
    let f = ap (after_read (on_right (a, b, s))) (read-IsIdle buf hs b s idle) in
    subst IsIdle (right_end (a, b, s) (a', b', s') (sym f ∙ e)) idle
step-IsIdle (closes left) a b a' b' s s' l idle e =
    subst IsIdle (after_close-left a b a' b' s s' (close a) e) idle
step-IsIdle (closes right) a b a' b' s s' l idle e =
    close-IsIdle a b a' b' s s' (signal b.read_event) idle e

LeftWrites-split :
    (c : Call) (cs : List Call) → LeftWrites (c ∷ cs) → LeftWrites (c ∷ []) × LeftWrites cs
LeftWrites-split (writes left bytes handles) cs l = (tt, l)
LeftWrites-split (writes right bytes handles) cs l = cc
LeftWrites-split (reads side buf hs) cs l = (tt, l)
LeftWrites-split (closes side) cs l = (tt, l)

run-IsIdle :
    (cs : List Call) (a b a' b' : Channel) (s s' : Store)
    → LeftWrites cs
    → IsIdle b
    → run cs (a, b, s) ≡ some (a', b', s')
    → IsIdle b'
unfolding run
run-IsIdle [] a b a' b' s s' l idle e = let same : b ≡ b' = cc in subst IsIdle same idle
run-IsIdle (c ∷ cs) a b a' b' s s' l idle e = elim (Option-cases (step c (a, b, s))) [
  | inl f ↦ let none_left = sym (ap (λ o. then_run o (run cs)) f) ∙ e in cc
  | inr ((a₁, b₁, s₁), f) ↦
      let (now, later) = LeftWrites-split c cs l in
      run-IsIdle cs a₁ b₁ a' b' s₁ s' later (step-IsIdle c a b a₁ b₁ s s₁ now idle f)
        (sym (ap (λ o. then_run o (run cs)) f) ∙ e)
]

created-IsIdle : (channels events : ℕ) → IsIdle (create channels events).0.1
unfolding create new
created-IsIdle channels events = (refl, refl)

-- What is written to one end of a channel never arrives at the other: whatever calls follow the
-- creation of a channel, as long as nothing is written to its right end a read there finds no
-- message. It does not learn either that the left end has been closed.
pub never_delivered :
    (cs : List Call) (channels events : ℕ) (s : Store) (a b : Channel) (s' : Store) (buf : List ℕ)
    (hs : List Handle)
    → LeftWrites cs
    → run cs ((create channels events).0.0, (create channels events).0.1, s) ≡ some (a, b, s')
    → read buf hs b s' ≡ returns (some (err no_messages, buf, hs, b, s'))
never_delivered cs channels events s a b s' buf hs l e = read-IsIdle buf hs b s' (
    run-IsIdle cs (create channels events).0.0 (create channels events).0.1 a b s s' l
      (created-IsIdle channels events) e)
