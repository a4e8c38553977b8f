-- ===== src/Datagram/Written.antt =====
-- What `overflow` sends while a text is written, and what a receiver in step makes of it:
-- DatagramConnection.cpp.
use ibrdtn.Base.{
  ℕ, ◌+◌, ◌-◌, ◌%◌, ◌<◌, ◌≡◌, ◌⊎◌, inl, inr, refl, sym, ap, ◌∙◌, Bool, true, false, some, List, [],
  ◌∷◌, ◌++◌, arith, length, ltb, Result, ok, length-append, Bool-cases, ltb→lt,
}
use mathlib.Core.List.{append_assoc, append-nil}
use native.Mathlib.Nat.{mod-eq_of_lt, mod_self, mod-add-mod}
use ibrdtn.Eid.{is_empty}
use ibrdtn.Datagram.{Stream, Datagram, segment_middle, overflow, put_char, write_chars, queue_all}
use ibrdtn.Datagram.Segments.{InStep, queue-InStep, next_datagram, queue_one, queue_all-append}

-- What the sender has sent, and what the receiver makes of it, after the bytes `m`.
pub record Sent (reaches : Datagram → Bool) (s r : Stream) (m : List ℕ)
    (res : Result (Stream × List Datagram)) : Type 0 where
  pub out : Stream
  pub sent : List Datagram
  pub into : Stream
  pub taken : List ℕ
  pub returns : res ≡ ok (out, sent)
  pub takes : queue_all r sent ≡ some (into, taken)
  pub kept : s.out_buf ++ m ≡ taken ++ out.out_buf
  pub in_step : InStep out into
  pub same_size : out.buf_size ≡ s.buf_size
  pub room : length out.out_buf < s.buf_size
  pub begun : (out.out_state ≡ segment_middle) ⊎ ((taken ≡ []) × (out.out_state ≡ s.out_state))
  pub filled : length out.out_buf ≡ (length s.out_buf + length m) % s.buf_size

not_empty : (xs : List ℕ) (c : ℕ) → is_empty (xs ++ (c ∷ [])) ≡ false
not_empty [] c = refl
not_empty (x ∷ xs) c = refl

module _ (reaches : Datagram → Bool) (all : (d : Datagram) → reaches d ≡ true) where
  overflow-some :
      (s : Stream) (c : ℕ)
      → s.abort ≡ false
      → overflow reaches s (some c)
        ≡ ok (
          record s {
            out_buf = [];
            out_seq_num = (s.out_seq_num + 1) % s.maxseqno;
            out_state = segment_middle;
          },
          next_datagram s s.out_state (s.out_buf ++ (c ∷ [])) ∷ [],
        )
  unfolding overflow
  overflow-some s c up =
      rw (up, not_empty s.out_buf c, all (next_datagram s s.out_state (s.out_buf ++ (c ∷ [])))) refl

  overflow_full :
      (s r : Stream) (c : ℕ)
      → InStep s r
      → length s.out_buf + 1 ≡ s.buf_size
      → Sent reaches s r (c ∷ []) (overflow reaches s (some c))
  overflow_full s r c h full = record {
    out = record s {
      out_buf = [];
      out_seq_num = (s.out_seq_num + 1) % s.maxseqno;
      out_state = segment_middle;
    };
    sent = next_datagram s s.out_state (s.out_buf ++ (c ∷ [])) ∷ [];
    into = record r { in_state = segment_middle; in_seq_num = (r.in_seq_num + 1) % r.maxseqno };
    taken = s.out_buf ++ (c ∷ []);
    returns = overflow-some s c h.sender_up;
    takes =
        queue_one r (next_datagram s s.out_state (s.out_buf ++ (c ∷ []))) _
          (queue-InStep s r _ h refl refl);
    kept = sym (append-nil (s.out_buf ++ (c ∷ [])));
    in_step = record {
      seqno = rw (h.seqno, h.modulus) refl;
      state = refl;
      first_or_middle = inr refl;
      modulus = h.modulus;
      sender_up = h.sender_up;
      receiver_up = h.receiver_up;
    };
    same_size = refl;
    room = omega arith;
    begun = inl refl;
    filled = rw full (sym (mod_self s.buf_size));
  }

  put_char-Sent :
      (s r : Stream) (c : ℕ)
      → InStep s r
      → length s.out_buf < s.buf_size
      → Sent reaches s r (c ∷ []) (put_char reaches s c)
  unfolding put_char
  put_char-Sent s r c h room = elim (Bool-cases (ltb (length s.out_buf) (s.buf_size - 1))) [
    | inl e ↦ rw e (record {
      out = record s { out_buf = s.out_buf ++ (c ∷ []) };
      sent = [];
      into = r;
      taken = [];
      returns = refl;
      takes = unfold queue_all in refl;
      kept = refl;
      in_step = record {
        seqno = h.seqno;
        state = h.state;
        first_or_middle = h.first_or_middle;
        modulus = h.modulus;
        sender_up = h.sender_up;
        receiver_up = h.receiver_up;
      };
      same_size = refl;
      room =
          omega
            (arith, length-append s.out_buf (c ∷ []), ltb→lt (length s.out_buf) (s.buf_size - 1) e);
      begun = inr (refl, refl);
      filled =
          length-append s.out_buf (c ∷ [])
          ∙ sym (mod-eq_of_lt (omega (arith, ltb→lt (length s.out_buf) (s.buf_size - 1) e)));
    })
    | inr e ↦ rw e (overflow_full s r c h (ground arith))
  ]

  no_chars :
      (s r : Stream) → InStep s r → length s.out_buf < s.buf_size → Sent reaches s r [] (ok (s, []))
  no_chars s r h room = record {
    out = s;
    sent = [];
    into = r;
    taken = [];
    returns = refl;
    takes = unfold queue_all in refl;
    kept = append-nil s.out_buf;
    in_step = h;
    same_size = refl;
    room = room;
    begun = inr (refl, refl);
    filled = sym (mod-eq_of_lt room) ∙ ap (λ z. z % s.buf_size) (omega arith);
  }

  -- What is sent for one text and then for another.
  both_parts :
      (s r : Stream) (m n : List ℕ) (first : Result (Stream × List Datagram))
      (a : Sent reaches s r m first) (next : Result (Stream × List Datagram))
      (b : Sent reaches a.out a.into n next) (both : Result (Stream × List Datagram))
      → both ≡ ok (b.out, a.sent ++ b.sent)
      → Sent reaches s r (m ++ n) both
  both_parts s r m n first a next b both e = record {
    out = b.out;
    sent = a.sent ++ b.sent;
    into = b.into;
    taken = a.taken ++ b.taken;
    returns = e;
    takes = queue_all-append r a.into b.into a.sent b.sent a.taken b.taken a.takes b.takes;
    kept =
        sym (append_assoc s.out_buf m n)
        ∙ ap (λ t. t ++ n) a.kept
        ∙ append_assoc a.taken a.out.out_buf n
        ∙ ap (λ t. a.taken ++ t) b.kept
        ∙ sym (append_assoc a.taken b.taken b.out.out_buf);
    in_step = b.in_step;
    same_size = b.same_size ∙ a.same_size;
    room = rw (← a.same_size) b.room;
    begun = begun_both a.begun b.begun;
    filled =
        b.filled
        ∙ ap (λ z. (length a.out.out_buf + length n) % z) a.same_size
        ∙ ap (λ z. (z + length n) % s.buf_size) a.filled
        ∙ mod-add-mod (length s.out_buf + length m) s.buf_size (length n)
        ∙ ap (λ z. z % s.buf_size) (omega (arith, length-append m n));
  }
    where
      begun_both :
          (a.out.out_state ≡ segment_middle) ⊎ ((a.taken ≡ []) × (a.out.out_state ≡ s.out_state))
          → (b.out.out_state ≡ segment_middle)
            ⊎ ((b.taken ≡ []) × (b.out.out_state ≡ a.out.out_state))
          → (b.out.out_state ≡ segment_middle)
            ⊎ ((a.taken ++ b.taken ≡ []) × (b.out.out_state ≡ s.out_state))
      begun_both x (inl e) = inl e
      begun_both (inl e) (inr f) = inl (f.1 ∙ e)
      begun_both (inr e) (inr f) = inr (rw (e.0, f.0) refl, f.1 ∙ e.1)

  pub write_chars-Sent :
      (m : List ℕ) (s r : Stream)
      → InStep s r
      → length s.out_buf < s.buf_size
      → Sent reaches s r m (write_chars reaches s m)
  unfolding write_chars
  write_chars-Sent [] s r h room = no_chars s r h room
  write_chars-Sent (c ∷ cs) s r h room =
      let a = put_char-Sent s r c h room in
      let b = write_chars-Sent cs a.out a.into a.in_step (omega (arith, a.room, a.same_size)) in
      both_parts s r (c ∷ []) cs (put_char reaches s c) a (write_chars reaches a.out cs) b _
        (rw a.returns (rw b.returns refl))
