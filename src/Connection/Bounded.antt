-- ===== src/Connection/Bounded.antt =====
-- Calls of StreamBuffer.cpp that are not cut off, down to the loop of `skipData`.
use ibrdtn.Base.{
  ℕ, zero, suc, ◌-◌, ◌≤◌, ◌<◌, ◌≡◌, ◌≢◌, inl, inr, refl, sym, ap, ◌∙◌, Bool, true, false, ◌&&◌,
  List, [], ◌++◌, arith, length, ltb, if◌then◌else◌, Result, ok, err, read_bytes, subst, Bool-cases,
  ltb→lt,
}
use ibrdtn.Base.{ltb→lt, read_bytes-shorter}
use ibrdtn.Segment.{msg_refuse_bundle, StreamDataSegment, plain_segment, write_segment}
use ibrdtn.Connection.{
  Connection, Outcome, returned, stream_error, stream_shutdown, io_failure, exhausted, thrown,
  and_then, write_out, send,
}
use ibrdtn.Connection.Receive.{read_stream, read_size, skip_loop, skip_data, refuse}

-- A call that is not cut off, does not change the size of the buffer, and reads what it reads from
-- the stream.
pub record Ends (c : Connection) (r : Connection × Outcome) : Type 0 where
  pub finishes : r.1 ≢ exhausted
  pub size : r.0.buffer_size ≡ c.buffer_size
  pub shorter : length r.0.incoming ≤ length c.incoming

pub and_then-Ends :
    (c : Connection) (r : Connection × Outcome) (next : Connection → Connection × Outcome)
    → Ends c r
    → ((d : Connection)
        → d.buffer_size ≡ c.buffer_size
        → length d.incoming ≤ length c.incoming
        → Ends d (next d))
    → Ends c (and_then r next)
and_then-Ends c (d, returned) next f s =
    let t = s d f.size f.shorter in
    record {
      finishes = t.finishes;
      size = t.size ∙ f.size;
      shorter = omega (arith, t.shorter, f.shorter);
    }
and_then-Ends c (d, stream_error) next f s = f
and_then-Ends c (d, stream_shutdown) next f s = f
and_then-Ends c (d, io_failure) next f s = f
and_then-Ends c (d, exhausted) next f s = f
and_then-Ends c (d, thrown e) next f s = f

-- A call that ends with another outcome than `exhausted`, and leaves size and stream.
unfoldable pub is_exhausted : Outcome → Bool
is_exhausted exhausted = true
is_exhausted returned = false
is_exhausted stream_error = false
is_exhausted stream_shutdown = false
is_exhausted io_failure = false
is_exhausted (thrown e) = false

pub not_cut : (o : Outcome) → is_exhausted o ≡ false → o ≢ exhausted
unfolding is_exhausted
not_cut o h e = absurd (other (sym h ∙ ap is_exhausted e))
  where
    other : false ≢ true
    other e = cc

pub if-Ends :
    (b : Bool) (c : Connection) (x y : Connection × Outcome)
    → Ends c x
    → Ends c y
    → Ends c (if b then x else y)
if-Ends true c x y l m = l
if-Ends false c x y l m = m

pub at_once :
    {c d : Connection} {o : Outcome}
    → is_exhausted o ≡ false
    → d.buffer_size ≡ c.buffer_size
    → length d.incoming ≤ length c.incoming
    → Ends c (d, o)
at_once {o = o} n s l = record { finishes = not_cut o n; size = s; shorter = l }

pub stays_so : {n : ℕ} → n ≤ n
stays_so = omega arith

pub write_out-Ends :
    (c : Connection) (seg : StreamDataSegment) (bytes : List ℕ) → Ends c (write_out c seg bytes)
unfolding write_out is_exhausted
write_out-Ends c seg bytes =
    if-Ends c.good c _ (c, io_failure) (written (write_segment seg)) (at_once refl refl stays_so)
  where
    written :
        (r : Result (List ℕ))
        → Ends c (elim r as (λ x. Connection × Outcome) [
          | err e ↦ (c, thrown e)
          | ok header ↦ (record c { outgoing = c.outgoing ++ (header ++ bytes) }, returned)
        ])
    written (err e) = at_once refl refl stays_so
    written (ok header) = at_once refl refl stays_so

pub send-Ends :
    (c : Connection) (seg : StreamDataSegment) (bytes : List ℕ) → Ends c (send c seg bytes)
unfolding send is_exhausted
send-Ends c seg bytes =
    if-Ends c.good c (write_out c seg bytes) (c, stream_error) (write_out-Ends c seg bytes)
      (at_once refl refl stays_so)

pub refuse-Ends : (c : Connection) → Ends c (refuse c)
unfolding refuse is_exhausted
refuse-Ends c =
    if-Ends c.nack_support c (send c (plain_segment msg_refuse_bundle) []) (c, returned)
      (send-Ends c _ []) (at_once refl refl stays_so)

pub read_stream-Ends :
    (c : Connection) (n : ℕ) (filled : List ℕ → Connection → Connection × Outcome)
    → ((bytes rest : List ℕ)
        → length rest ≤ length c.incoming
        → Ends (record c { incoming = rest }) (filled bytes (record c { incoming = rest })))
    → Ends c (read_stream c n filled)
unfolding read_stream is_exhausted
read_stream-Ends c n filled f = bytes_read (read_bytes n c.incoming) refl
  where
    bytes_read :
        (r : Result (List ℕ × List ℕ))
        → read_bytes n c.incoming ≡ r
        → Ends c (elim r as (λ x. Connection × Outcome) [
          | err e ↦ (record c { good = false; incoming = []; transferring = false }, stream_error)
          | ok (bytes, rest) ↦ filled bytes (record c { incoming = rest })
        ])
    bytes_read (err e) same = at_once refl refl (omega arith)
    bytes_read (ok (bytes, rest)) same =
        let l = read_bytes-shorter n c.incoming bytes rest same in
        let t = f bytes rest l in
        record { finishes = t.finishes; size = t.size; shorter = omega (arith, t.shorter, l) }

-- Each round takes at least one byte.
pub skip_loop-Ends :
    (n : ℕ) (c : Connection) → 0 < c.buffer_size → c.data_remain < n → Ends c (skip_loop n c)
unfolding skip_loop is_exhausted
skip_loop-Ends zero c b h = absurd (omega arith)
skip_loop-Ends (suc n) c b h =
    let next : List ℕ → Connection → Connection × Outcome =
      λ bytes c. skip_loop n (record c { data_remain = c.data_remain - read_size c }) in
    elim (Bool-cases (ltb 0 c.data_remain && c.good)) [
      | inl y ↦
          let some_left : 0 < c.data_remain =
            ltb→lt 0 c.data_remain (first_of (ltb 0 c.data_remain) c.good y) in
          let opened : skip_loop (suc n) c ≡ read_stream c (read_size c) next = simp y in
          subst (Ends c) (sym opened) (
            read_stream-Ends c (read_size c) next (λ bytes rest l.
              let d : Connection = record c {
                incoming = rest;
                data_remain = c.data_remain - read_size c;
              } in
              let t = skip_loop-Ends n d b (fewer c b some_left h) in
              record { finishes = t.finishes; size = t.size; shorter = t.shorter }))
      | inr none_left ↦
          let opened : skip_loop (suc n) c ≡ (c, returned) = simp none_left in
          subst (Ends c) (sym opened) (at_once refl refl stays_so)
    ]
  where
    first_of : (a b : Bool) → (a && b) ≡ true → a ≡ true
    first_of a b e = ground arith

    fewer :
        (c : Connection)
        → 0 < c.buffer_size
        → 0 < c.data_remain
        → c.data_remain < suc n
        → c.data_remain - read_size c < n
    fewer c b some_left h = ground arith

pub refuse_and_skip-Ends :
    (c : Connection) → 0 < c.buffer_size → Ends c (and_then (refuse c) skip_data)
unfolding skip_data
refuse_and_skip-Ends c b =
    and_then-Ends c (refuse c) skip_data (refuse-Ends c)
      (λ d s l. skip_loop-Ends (suc d.data_remain) d (rw s b) (omega arith))
