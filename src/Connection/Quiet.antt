-- ===== src/Connection/Quiet.antt =====
-- Calls of StreamBuffer.cpp that do not tell the user of the end of the connection.
use ibrdtn.Base.{
  ℕ, suc, ◌+◌, ◌≡◌, refl, ap, ◌∙◌, Bool, true, false, Option, none, some, List, [], ◌∷◌, ◌++◌,
  arith, if◌then◌else◌, Result, ok, err,
}
use ibrdtn.Eid.{is_empty}
use ibrdtn.Segment.{StreamDataSegment, write_segment}
use ibrdtn.Connection.{
  Connection, Event, event_shutdown, event_timeout, event_error, event_bundle_refused,
  event_bundle_forwarded, event_bundle_ack, event_connection_up, event_connection_down, Outcome,
  returned, stream_error, stream_shutdown, io_failure, exhausted, thrown, and_then, notify,
  write_out, send, overflow, mark, enqueue, overflow_caught, data_segment,
}
use ibrdtn.Connection.Shutdown.{is_notset}

abbrev pub downs : List Event → ℕ
downs [] = 0
downs (event_connection_down ∷ es) = suc (downs es)
downs (event_shutdown c ∷ es) = downs es
downs (event_timeout ∷ es) = downs es
downs (event_error ∷ es) = downs es
downs (event_bundle_refused ∷ es) = downs es
downs (event_bundle_forwarded ∷ es) = downs es
downs (event_bundle_ack n ∷ es) = downs es
downs (event_connection_up h ∷ es) = downs es

abbrev pub Quiet : List Event → Type 0
Quiet es = downs es ≡ 0

pub downs-append : (es more : List Event) → downs (es ++ more) ≡ downs es + downs more
downs-append [] more = omega arith
downs-append (event_connection_down ∷ es) more = ap suc (downs-append es more) ∙ omega arith
downs-append (event_shutdown c ∷ es) more = downs-append es more
downs-append (event_timeout ∷ es) more = downs-append es more
downs-append (event_error ∷ es) more = downs-append es more
downs-append (event_bundle_refused ∷ es) more = downs-append es more
downs-append (event_bundle_forwarded ∷ es) more = downs-append es more
downs-append (event_bundle_ack n ∷ es) more = downs-append es more
downs-append (event_connection_up h ∷ es) more = downs-append es more

-- The connection is shut down when its user has heard so.
pub record IsCounted (c : Connection) : Type 0 where
  pub down : downs c.events ≡ (if is_notset c.shutdown_reason then 0 else 1)

-- The call leaves the reason, and adds no event of the end.
pub record Leaves (c d : Connection) : Type 0 where
  pub reason : d.shutdown_reason ≡ c.shutdown_reason
  pub down : downs d.events ≡ downs c.events

pub leaves : {c d e : Connection} → Leaves c d → Leaves d e → Leaves c e
leaves f s = record { reason = s.reason ∙ f.reason; down = s.down ∙ f.down }

pub stays : {c : Connection} → Leaves c c
stays = record { reason = refl; down = refl }

pub and_then-Leaves :
    (c : Connection) (r : Connection × Outcome) (next : Connection → Connection × Outcome)
    → Leaves c r.0
    → ((d : Connection) → Leaves d (next d).0)
    → Leaves c (and_then r next).0
and_then-Leaves c (d, returned) next f s = leaves f (s d)
and_then-Leaves c (d, stream_error) next f s = f
and_then-Leaves c (d, stream_shutdown) next f s = f
and_then-Leaves c (d, io_failure) next f s = f
and_then-Leaves c (d, exhausted) next f s = f
and_then-Leaves c (d, thrown e) next f s = f

pub notify-Leaves : (c : Connection) (e : Event) → downs (e ∷ []) ≡ 0 → Leaves c (notify c e)
unfolding notify
notify-Leaves c e q = record {
  reason = refl;
  down = downs-append c.events (e ∷ []) ∙ (ap (λ n. downs c.events + n) q ∙ omega arith);
}

pub if-Leaves :
    (b : Bool) (c : Connection) (x y : Connection × Outcome)
    → Leaves c x.0
    → Leaves c y.0
    → Leaves c (if b then x else y).0
if-Leaves true c x y l m = l
if-Leaves false c x y l m = m

pub write_out-Leaves :
    (c : Connection) (seg : StreamDataSegment) (bytes : List ℕ) → Leaves c (write_out c seg bytes).0
unfolding write_out
write_out-Leaves c seg bytes = if-Leaves c.good c _ _ (written (write_segment seg)) stays
  where
    written :
        (r : Result (List ℕ))
        → Leaves c
            (elim r as (λ x. Connection × Outcome) [
              | err e ↦ (c, thrown e)
              | ok header ↦ (record c { outgoing = c.outgoing ++ (header ++ bytes) }, returned)
            ]).0
    written (err e) = stays
    written (ok header) = record { reason = refl; down = refl }

pub send-Leaves :
    (c : Connection) (seg : StreamDataSegment) (bytes : List ℕ) → Leaves c (send c seg bytes).0
unfolding send
send-Leaves c seg bytes = if-Leaves c.good c _ _ (write_out-Leaves c seg bytes) stays

pub Leaves-IsCounted : {c d : Connection} → Leaves c d → IsCounted c → IsCounted d
Leaves-IsCounted l i = record { down = rw (l.down, l.reason) i.down }

pub overflow_caught-Leaves :
    (c : Connection) (r : Connection × Outcome) → Leaves c r.0 → Leaves c (overflow_caught r).0
unfolding overflow_caught
overflow_caught-Leaves c (d, returned) l = l
overflow_caught-Leaves c (d, stream_error) l = leaves l (record { reason = refl; down = refl })
overflow_caught-Leaves c (d, stream_shutdown) l = l
overflow_caught-Leaves c (d, io_failure) l = leaves l (record { reason = refl; down = refl })
overflow_caught-Leaves c (d, exhausted) l = l
overflow_caught-Leaves c (d, thrown e) l = l

pub choose-Leaves :
    (b : Bool) (c x y : Connection) → Leaves c x → Leaves c y → Leaves c (if b then x else y)
choose-Leaves true c x y l m = l
choose-Leaves false c x y l m = m

pub mark-Leaves : (c : Connection) (ch : Option ℕ) → Leaves c (mark c ch)
unfolding mark
mark-Leaves c none =
    leaves (choose-Leaves c.sob c _ _ (record { reason = refl; down = refl }) stays)
      (record { reason = refl; down = refl })
mark-Leaves c (some b) = choose-Leaves c.sob c _ _ (record { reason = refl; down = refl }) stays

pub enqueue-Leaves : (c : Connection) (seg : StreamDataSegment) → Leaves c (enqueue c seg)
unfolding enqueue
enqueue-Leaves c seg =
    choose-Leaves c.ack_support c _ _ (record { reason = refl; down = refl })
      (choose-Leaves _ c _ _ (notify-Leaves c event_bundle_forwarded refl) stays)

pub overflow-Leaves : (c : Connection) (ch : Option ℕ) → Leaves c (overflow c ch).0
unfolding overflow
overflow-Leaves c ch =
    let empty : Connection = record c { out_buf = [] } in
    let marked = mark empty ch in
    let bytes = c.out_buf ++ elim ch [ none ↦ [] | some b ↦ b ∷ [] ] in
    let seg = data_segment c.sob ch bytes in
    let out : Connection × Outcome = overflow_caught (send (enqueue marked seg) seg bytes) in
    let m : Leaves c marked =
      leaves (record { reason = refl; down = refl }) (mark-Leaves empty ch) in
    let o : Leaves c out.0 = overflow_caught-Leaves c (send (enqueue marked seg) seg bytes) (
      leaves m (leaves (enqueue-Leaves marked seg) (send-Leaves (enqueue marked seg) seg bytes))) in
    if-Leaves (is_empty bytes) c (empty, returned) (if marked.skip then (marked, returned) else out)
      (record { reason = refl; down = refl }) (if-Leaves marked.skip c (marked, returned) out m o)
