-- ===== src/Datagram/Transfer.antt =====
-- What one stream sends, another takes in: DatagramConnection.cpp.
use ibrdtn.Base.{
  ℕ, ◌+◌, ◌%◌, ◌<◌, ◌≡◌, ◌≢◌, ◌⊎◌, inl, inr, refl, sym, ap, ◌∙◌, Bool, true, false, none, some,
  List, [], ◌∷◌, ◌++◌, arith, length, ok,
}
use mathlib.Core.List.{append-nil}
use ibrdtn.Eid.{is_empty}
use ibrdtn.Flags.{set_flag}
use ibrdtn.Datagram.{
  Stream, Datagram, segment_first, segment_middle, segment_last, queue, overflow, write_chars, sync,
  send_message, queue_all, dropped,
}
use ibrdtn.Datagram.Segments.{
  InStep, AtStart, next_datagram, queue_last-InStep, queue_one, filled_some, refused,
  queue_all-append,
}
use ibrdtn.Datagram.Written.{Sent, write_chars-Sent}

module _ (reaches : Datagram → Bool) (all : (d : Datagram) → reaches d ≡ true) where
  overflow-end :
      (s : Stream)
      → s.abort ≡ false
      → is_empty s.out_buf ≡ false
      → overflow reaches s none
        ≡ ok (
          record s {
            out_buf = [];
            out_seq_num = (s.out_seq_num + 1) % s.maxseqno;
            out_state = segment_middle;
          },
          next_datagram s s.out_state (s.out_buf ++ []) ∷ [],
        )
  unfolding overflow
  overflow-end s up full =
      rw (up, append-nil s.out_buf, full, all (next_datagram s s.out_state s.out_buf)) refl

  overflow-nothing :
      (s : Stream)
      → s.abort ≡ false
      → s.out_buf ≡ []
      → overflow reaches s none ≡ ok (record s { out_buf = [] }, [])
  unfolding overflow
  overflow-nothing s up e = rw (up, e) refl

  -- A flush with bytes in the buffer ends the message.
  sync_rest :
      (s r : Stream)
      → InStep s r
      → is_empty s.out_buf ≡ false
      → 0 < s.buf_size
      → (s' r' : Stream) × (d : Datagram) × (sync reaches s ≡ ok (s', d ∷ []))
        × (queue_all r (d ∷ []) ≡ some (r', s.out_buf))
        × AtStart s' r'
  unfolding sync
  sync_rest s r h some_bytes size =
      let flags = set_flag s.out_state segment_last in
      let d = next_datagram s flags (s.out_buf ++ []) in
      (
        record s {
          out_buf = [];
          out_seq_num = (s.out_seq_num + 1) % s.maxseqno;
          out_state = segment_first;
        },
        record r { in_state = segment_first; in_seq_num = (r.in_seq_num + 1) % r.maxseqno },
        d,
        rw (overflow-end (record s { out_state = flags }) h.sender_up some_bytes) refl,
        queue_one r d _ (queue_last-InStep s r d h refl refl)
            ∙ ap
                (λ b. some (
                  record r {
                    in_state = segment_first;
                    in_seq_num = (r.in_seq_num + 1) % r.maxseqno;
                  },
                  b,
                ))
                (append-nil s.out_buf),
        record {
          in_step = record {
            seqno = rw (h.seqno, h.modulus) refl;
            state = refl;
            first_or_middle = inl refl;
            modulus = h.modulus;
            sender_up = h.sender_up;
            receiver_up = h.receiver_up;
          };
          first = refl;
          empty = refl;
          size = size;
        },
      )

  -- What is sent for the bytes of a message, before the flush.
  message-Sent :
      (s r : Stream) (m : List ℕ) → AtStart s r → Sent reaches s r m (write_chars reaches s m)
  message-Sent s r m h = write_chars-Sent reaches all m s r h.in_step (rw h.empty h.size)

  -- If `stream_send` returns for every datagram, and between two messages: a message whose length
  -- is no multiple of the size of a datagram comes through. The peer, which has seen all that was
  -- sent before, accepts each datagram, their bytes are the message, and both sides are ready for
  -- the next one.
  pub transfer :
      (s r : Stream) (m : List ℕ)
      → AtStart s r
      → length m % s.buf_size ≢ 0
      → (s' r' : Stream) × (sent : List Datagram) × (send_message reaches s m ≡ ok (s', sent))
        × (queue_all r sent ≡ some (r', m))
        × AtStart s' r'
  unfolding send_message
  transfer s r m h part =
      let a = message-Sent s r m h in
      let some_bytes =
        filled_some a.out.out_buf
          (λ e. part (ap (λ n. n % s.buf_size) (rw h.empty (omega arith)) ∙ sym a.filled ∙ e)) in
      let (s', r', d, synced, taken, start) =
        sync_rest a.out a.into a.in_step some_bytes (omega (arith, h.size, a.same_size)) in
      (
        s',
        r',
        a.sent ++ (d ∷ []),
        rw a.returns (rw synced refl),
        queue_all-append r a.into r' a.sent (d ∷ []) a.taken a.out.out_buf a.takes taken
            ∙ ap (λ b. some (r', b)) (sym a.kept ∙ ap (λ b. b ++ m) h.empty),
        start,
      )

  -- If `stream_send` returns for every datagram, and between two messages with a peer that has seen
  -- all that was sent before: a message that is not empty and whose length is a multiple of the
  -- size of a datagram is sent without a datagram that is marked as the last one: the peer has all
  -- its bytes, but still waits for the end. The sender starts the next message with a first
  -- datagram, and such a datagram makes the peer drop it and abort the stream.
  pub unmarked_end :
      (s r : Stream) (m : List ℕ)
      → AtStart s r
      → length m % s.buf_size ≡ 0
      → is_empty m ≡ false
      → (s' r' : Stream) × (sent : List Datagram) × (send_message reaches s m ≡ ok (s', sent))
        × (queue_all r sent ≡ some (r', m))
        × (s'.out_state ≡ segment_first)
        × ((bytes : List ℕ)
            → queue r' (next_datagram s' s'.out_state bytes)
              ≡ (record r' { abort = true }, dropped))
  unfolding send_message sync
  unmarked_end s r m h whole some_bytes =
      let a = message-Sent s r m h in
      let nothing =
        no_chars_left a.out.out_buf
          (a.filled ∙ ap (λ n. n % s.buf_size) (rw h.empty (omega arith)) ∙ whole) in
      let all_taken =
        sym (append-nil a.taken)
        ∙ ap (λ b. a.taken ++ b) (sym nothing)
        ∙ sym a.kept
        ∙ ap (λ b. b ++ m) h.empty in
      let middle = still_open a.begun all_taken in
      (
        record a.out { out_buf = []; out_state = segment_first },
        a.into,
        a.sent ++ [],
        rw a.returns (
            rw
              (overflow-nothing (record a.out { out_state = set_flag a.out.out_state segment_last })
                a.in_step.sender_up nothing)
              refl),
        ap (λ ds. queue_all r ds) (append-nil a.sent)
            ∙ a.takes
            ∙ ap (λ b. some (a.into, b)) all_taken,
        refl,
        λ bytes. refused a.out a.into a.in_step middle bytes,
      )
    where
      no_chars_left : (xs : List ℕ) → length xs ≡ 0 → xs ≡ []
      no_chars_left [] e = refl
      no_chars_left (x ∷ xs) e = absurd (omega (arith, e))

      still_open : {a b : Type 0} {taken : List ℕ} → a ⊎ ((taken ≡ []) × b) → taken ≡ m → a
      still_open (inl e) k = e
      still_open (inr e) k = cc
