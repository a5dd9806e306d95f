-- ===== src/Session/Head/Live.antt =====
-- Frames of the served log, as they come over a live stream: whatever comes when, the record has no
-- gap.
use synclog.Prelude.{ℕ, ◌+◌, ◌≤◌, ◌≡◌, true, false, Option, none, some, arith, length}
use synclog.Io.{Outcome, ok, err, running}
use synclog.Io.Triples.{Post, Triple}
use synclog.Protocol.Service.{CatchUpStatus}
use synclog.Protocol.Gateway.{GatewayBatch, GatewayCatchUpResult, GatewaySubscribeResponse}
use synclog.Target.{TargetBindingKey}
use synclog.Transport.{AsyncIterator, SyncGatewayTransport}
use synclog.Client.{SyncClient, SyncBinding, key_of, matches_binding}
use synclog.Session.{World, client_over, stored, iterator_over}
use synclog.Session.Head.{Consecutive, NoEvents, Served}
use synclog.Session.Head.Steps.{Ready}

module _ {N TSnapshot TEvent : Type 0} (gateway : SyncGatewayTransport N)
    (client : SyncClient (World N TSnapshot TEvent))
    (binding : SyncBinding (World N TSnapshot TEvent) TSnapshot TEvent) (key : TargetBindingKey)
    (cursor head : N → ℕ) where
  -- A frame that arrives in the state `n`: one that the client leaves aside; events that begin at
  -- or before the cursor, and so may repeat some; or an overrun, with a snapshot as a catch-up has
  -- it.
  pub data ServedFrame (n : N) (frame : GatewaySubscribeResponse) : Type 0 where
    heartbeat : frame.heartbeat ≡ true → ServedFrame n frame
    foreign : matches_binding frame.binding_key binding.binding_key ≡ false → ServedFrame n frame
    unset : frame.status ≡ CatchUpStatus.none → ServedFrame n frame
    quiet : frame.status ≡ CatchUpStatus.ok → NoEvents frame.batch → ServedFrame n frame
    news :
        (batch : GatewayBatch) (start : ℕ)
        → frame.status ≡ CatchUpStatus.ok
        → frame.batch ≡ some batch
        → start ≤ cursor n
        → Consecutive start batch.events
        → start + length batch.events ≤ head n
        → key_of (client_over gateway client) (stored binding) (some batch.binding_key) ≡ key
        → ServedFrame n frame
    overrun :
        (result : GatewayCatchUpResult)
        → frame.status ≡ CatchUpStatus.too_long
        → result.status ≡ CatchUpStatus.too_long
        → Served gateway client binding key cursor head n result
        → ServedFrame n frame

  -- A state in which events may have been appended since.
  abbrev pub Later : N → N → Type 0
  Later n later = (cursor later ≡ cursor n) × (head n ≤ head later)

  -- What a stream's `next` found.
  abbrev pub Found : N → Option GatewaySubscribeResponse → Type 0
  Found n none = Unit
  Found n (some frame) = ServedFrame n frame

  abbrev pub Delivered : N → Outcome (Option GatewaySubscribeResponse) → Type 0
  Delivered n (ok frame) = Found n frame
  Delivered n (err e) = Unit
  Delivered n running = Unit

  -- A stream of the log. Events may be appended while a frame is awaited, and the stream may break.
  pub record ServesFrames (iterator : AsyncIterator N) : Type 0 where
    pub next :
        (n : N) → Later n (iterator.next n).1 × Delivered (iterator.next n).1 (iterator.next n).0

  pub later-Ready :
      (w : World N TSnapshot TEvent) (later : N)
      → Later w.net later
      → Ready cursor head key w
      → Ready cursor head key (record w { net = later })
  later-Ready w later l h = record {
    behind = omega (arith, h.behind, l.0);
    within = omega (arith, h.within, l.1);
    snapshot = omega (arith, h.snapshot, l.0);
    covers = h.covers;
  }

  abbrev Whole : World N TSnapshot TEvent → Type 0
  Whole = Ready cursor head key

  Delivered-Post :
      (o : Outcome (Option GatewaySubscribeResponse)) (w : World N TSnapshot TEvent)
      → Whole w
      → Delivered w.net o
      → Post (λ frame v. Whole v × Found v.net frame) Whole (o, w)
  Delivered-Post (ok frame) w h d = (h, d)
  Delivered-Post (err e) w h d = h
  Delivered-Post running w h d = h

  pub next-Triple :
      (iterator : AsyncIterator N)
      → ServesFrames iterator
      → Triple Whole (iterator_over iterator).next (λ frame w. Whole w × Found w.net frame) Whole
  next-Triple iterator s = record {
    at = λ w h.
        Delivered-Post (iterator.next w.net).0 (record w { net = (iterator.next w.net).1 })
          (later-Ready w (iterator.next w.net).1 (s.next w.net).0 h) (s.next w.net).1;
  }
