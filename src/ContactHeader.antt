-- ===== src/ContactHeader.antt =====
-- ibrdtn/ibrdtn/streams/StreamContactHeader.h and StreamContactHeader.cpp: the first message of
-- each side of a TCP connection.
use ibrdtn.Base.{
  ℕ, ◌+◌, ◌*◌, ◌/◌, ◌%◌, ◌^◌, ◌<◌, ◌≡◌, ◌≢◌, ◌⊎◌, inl, inr, refl, sym, ap, List, [], ◌∷◌, ◌++◌,
  arith, length, ◌==◌, if◌then◌else◌, Result, ok, err, invalid_protocol, get_byte, read_bytes,
  read_bytes-append, ◌>>=◌, Bool-cases,
}
use ibrdtn.BundleText.{write_text, read_text, text_bytes, write_text-eq, read_text-text_bytes}
use ibrdtn.Eid.{Eid, eid_none, eid_of_text, get_string, text_eq}
use ibrdtn.Eid.Parse.{IsPlain, eid_of_text-get_string}
use ibrdtn.Eid.Order.{text_eq→eq}

pub record ContactHeader : Type 0 where
  pub localeid : Eid
  pub flags : ℕ
  pub keepalive : ℕ

abbrev tcpcl_version : ℕ
tcpcl_version = 3

abbrev magic_text : List ℕ
magic_text = b'd' ∷ b't' ∷ b'n' ∷ b'!' ∷ []

-- The constructors.
pub plain_header : ContactHeader
plain_header = record { localeid = eid_none; flags = 1; keepalive = 0 }

unfoldable pub header_of_eid : Eid → ContactHeader
header_of_eid e = record { localeid = e; flags = 1; keepalive = 0 }

pub write_header : ContactHeader → Result (List ℕ)
write_header h = do
  eid ← write_text (get_string h.localeid)
  ok (magic_text ++ (tcpcl_version ∷ h.flags ∷ h.keepalive / 256 ∷ h.keepalive % 256 ∷ eid))

-- Behind the magic text and the version, where `s` stands.
read_fields : List ℕ → Result (ContactHeader × List ℕ)
read_fields s = do
  (flags, s) ← get_byte s
  (high, s) ← get_byte s
  (low, s) ← get_byte s
  (eid, s) ← read_text s
  ok (record { localeid = eid_of_text eid; flags = flags; keepalive = high * 256 + low }, s)

read_version : List ℕ → Result (ContactHeader × List ℕ)
unfolding read_fields
read_version s =
    get_byte s >>= λ v. if v.0 == tcpcl_version then read_fields v.1 else err invalid_protocol

-- A text with a NUL inside ends there, where it is compared; none of the magic text is one.
pub read_header : List ℕ → Result (ContactHeader × List ℕ)
unfolding read_version
read_header s = read_bytes 4 s >>= λ m.
    if text_eq m.0 magic_text then read_version m.1 else err invalid_protocol

-- The fields that a stream can carry.
pub record IsHeader (h : ContactHeader) : Type 0 where
  pub localeid : IsPlain h.localeid
  pub short : length (get_string h.localeid) < 2 ^ 63

header_bytes : ContactHeader → List ℕ
header_bytes h =
    magic_text
    ++ (tcpcl_version
        ∷ h.flags
        ∷ h.keepalive / 256
        ∷ h.keepalive % 256
        ∷ text_bytes (get_string h.localeid))

write_header-eq : (h : ContactHeader) → IsHeader h → write_header h ≡ ok (header_bytes h)
unfolding write_header header_bytes
write_header-eq h w = rw (write_text-eq (get_string h.localeid) w.short)

read_fields-eq :
    (h : ContactHeader) (s : List ℕ)
    → IsHeader h
    → read_fields (
        h.flags ∷ h.keepalive / 256 ∷ h.keepalive % 256 ∷ (text_bytes (get_string h.localeid) ++ s))
      ≡ ok (h, s)
unfolding read_fields
read_fields-eq h s w =
    rw (read_text-text_bytes (get_string h.localeid) s w.short)
      (rw (eid_of_text-get_string h.localeid w.localeid) (ground arith))

-- The header of a peer whose EID is plain and shorter than 2 ^ 63 bytes is read back, whatever
-- follows it.
read-write_header :
    (h : ContactHeader) (s : List ℕ)
    → IsHeader h
    → (bs : List ℕ) × (write_header h ≡ ok bs) × (read_header (bs ++ s) ≡ ok (h, s))
unfolding header_bytes read_header read_version text_eq
read-write_header h s w = (
  header_bytes h,
  write_header-eq h w,
  rw
      (read_bytes-append magic_text (
        tcpcl_version
        ∷ h.flags
        ∷ h.keepalive / 256
        ∷ h.keepalive % 256
        ∷ (text_bytes (get_string h.localeid) ++ s)))
      (read_fields-eq h s w),
)

-- `read_version` of a stream that starts with another version.
read_version-refuses :
    (v : ℕ) (s : List ℕ) → v ≢ tcpcl_version → read_version (v ∷ s) ≡ err invalid_protocol
unfolding read_version
read_version-refuses v s h = ground arith

-- A stream that starts with four bytes other than the magic text, or with the magic text and
-- another version, is refused as the wrong protocol.
read_header_refuses :
    (magic : List ℕ) (v : ℕ) (s : List ℕ)
    → length magic ≡ 4
    → (magic ≢ magic_text) ⊎ (v ≢ tcpcl_version)
    → read_header (magic ++ (v ∷ s)) ≡ err invalid_protocol
unfolding read_header
read_header_refuses magic v s four bad = rw (ap (λ n. read_bytes n (magic ++ (v ∷ s))) (sym four)) (
    rw (read_bytes-append magic (v ∷ s)) (elim (Bool-cases (text_eq magic magic_text)) [
      | inl e ↦ rw e (elim bad [
        | inl m ↦ absurd (m (text_eq→eq magic magic_text e))
        | inr w ↦ read_version-refuses v s w
      ])
      | inr e ↦ rw e refl
    ]))
