-- ===== src/Datagram/Delivery.antt =====
-- The bytes on their way from `queue` to the reader: the buffer of `queue` and `underflow`, whose
-- threads wait for each other.
use ibrdtn.Base.{ℕ, ◌≡◌, ◌≢◌, refl, sym, ap, ◌∙◌, false, Option, none, some, List, [], ◌++◌, arith}
use mathlib.Core.List.{append_assoc, append-nil}
use ibrdtn.Eid.{is_empty}
use ibrdtn.Datagram.{Stream, Datagram, accepted, queue, new_stream}

-- `waiting` are the bytes of a call of `queue` that waits for a free buffer, `delivered` all that
-- `underflow` has handed to the reader.
pub record Receiver : Type 0 where
  pub stream : Stream
  pub waiting : Option (List ℕ)
  pub delivered : List ℕ

abbrev pub waiting_bytes : Option (List ℕ) → List ℕ
waiting_bytes none = []
waiting_bytes (some bytes) = bytes

-- One step of either thread, and the bytes that it accepts from the peer, as long as nobody calls
-- `close`, which interrupts both. The calls of `queue` come from one thread, so none comes while
-- one waits. `underflow` only waits, or throws after an abort, while the buffer is empty. The steps
-- are what the threads do with the mutex in hand. The waits and signals of the condition variable
-- are no part of it: they choose which of these steps come, and in which order. Datagram/Waking has
-- them.
pub data Step (r : Receiver) (bytes : List ℕ) (u : Receiver) : Type 0 where
  arrives :
      (d : Datagram)
      → r.waiting ≡ none
      → (queue r.stream d).1 ≡ accepted
      → bytes ≡ d.bytes
      → u ≡ record r { stream = (queue r.stream d).0; waiting = some d.bytes }
      → Step r bytes u
  refused :
      (d : Datagram)
      → r.waiting ≡ none
      → (queue r.stream d).1 ≢ accepted
      → bytes ≡ []
      → u ≡ record r { stream = (queue r.stream d).0 }
      → Step r bytes u
  stored :
      (held : List ℕ)
      → r.waiting ≡ some held
      → r.stream.queue_buf ≡ []
      → bytes ≡ []
      → u ≡ record r { stream = record r.stream { queue_buf = held }; waiting = none }
      → Step r bytes u
  underflows :
      is_empty r.stream.queue_buf ≡ false
      → bytes ≡ []
      → u ≡ record r {
        stream = record r.stream { queue_buf = [] };
        delivered = r.delivered ++ r.stream.queue_buf;
      }
      → Step r bytes u

-- Steps one behind the other, and all bytes that they accept.
pub data Run (r : Receiver) : List ℕ → Receiver → Type 0 where
  starts : Run r [] r
  goes_on :
      (before now bytes : List ℕ) (t u : Receiver)
      → Run r before t
      → Step t now u
      → bytes ≡ before ++ now
      → Run r bytes u

-- What is delivered and what is still on the way.
pub all_bytes : Receiver → List ℕ
all_bytes r = r.delivered ++ (r.stream.queue_buf ++ waiting_bytes r.waiting)

queue-queue_buf : (s : Stream) (d : Datagram) → (queue s d).0.queue_buf ≡ s.queue_buf
unfolding queue
queue-queue_buf s d = ground arith

pub Step-all_bytes :
    (r u : Receiver) (bytes : List ℕ) → Step r bytes u → all_bytes u ≡ all_bytes r ++ bytes
unfolding all_bytes
Step-all_bytes r u bytes (arrives d w v b e) =
    rw (e, b, w) (rw (queue-queue_buf r.stream d) (simp (append_assoc, append-nil) refl))
Step-all_bytes r u bytes (refused d w v b e) =
    rw (e, b) (rw (queue-queue_buf r.stream d) (simp (append_assoc, append-nil) refl))
Step-all_bytes r u bytes (stored held w f b e) = rw (e, b, w, f) (simp append-nil refl)
Step-all_bytes r u bytes (underflows f b e) = rw (e, b) (simp (append_assoc, append-nil) refl)

Run-all_bytes :
    (r u : Receiver) (bytes : List ℕ) → Run r bytes u → all_bytes u ≡ all_bytes r ++ bytes
Run-all_bytes r u bytes starts = sym (append-nil (all_bytes r))
Run-all_bytes r u bytes (goes_on before now _ t _ run step b) =
    Step-all_bytes t u now step
    ∙ ap (λ x. x ++ now) (Run-all_bytes r t before run)
    ∙ append_assoc (all_bytes r) before now
    ∙ ap (λ x. all_bytes r ++ x) (sym b)

unfoldable pub new_receiver : ℕ → ℕ → Receiver
new_receiver size maxseqno = record {
  stream = new_stream size maxseqno;
  waiting = none;
  delivered = [];
}

-- However the threads take turns before a `close`: what the peer's accepted datagrams held is what
-- the reader has got, followed by what is in the buffer and in a waiting call. Nothing is lost,
-- doubled or out of order.
pub delivered_in_order :
    (size maxseqno : ℕ) (bytes : List ℕ) (u : Receiver)
    → Run (new_receiver size maxseqno) bytes u
    → bytes ≡ u.delivered ++ (u.stream.queue_buf ++ waiting_bytes u.waiting)
unfolding all_bytes new_receiver new_stream
delivered_in_order size maxseqno bytes u run =
    sym (Run-all_bytes (new_receiver size maxseqno) u bytes run)
