-- ===== src/Packet/RoundTrip.antt =====
-- What is read of a serialized packet.
use alca.Base.{
  ℕ, zero, suc, ◌+◌, ◌<◌, ◌≤◌, ◌≡◌, refl, ap, sym, subst, ◌∙◌, Bool, true, false, some, Bool-cases,
  inl, inr, [], ◌∷◌, ◌++◌, append_assoc, ltb, if◌then◌else◌, length, length-append, take, drop,
  Bytes, arith,
}
use alca.Base.Words.{word_mod, wrap32, le_bytes, read_le-le_bytes}
use alca.Packet.{
  alca_magic, ac_bswap, netint, max_recv_size, PacketHeader, ac_packet_create, ac_packet_set_data,
  header_bytes, ac_packet_serialize, ReadResult, packet, refused, overrun, read_header, read_data,
  ac_packet_read,
}

-- The fields are 32-bit words.
pub record IsHeader (h : PacketHeader) : Type 0 where
  pub magic : h.magic < word_mod
  pub version : h.version < word_mod
  pub packet_type : h.packet_type < word_mod
  pub data_type : h.data_type < word_mod
  pub data_len : h.data_len < word_mod
  pub sequence : h.sequence < word_mod

drop-le_bytes : (x : ℕ) (rest : Bytes) → drop 4 (le_bytes x ++ rest) ≡ rest
unfolding le_bytes
drop-le_bytes x rest = refl

length-le_bytes : (x : ℕ) → length (le_bytes x) ≡ 4
unfolding le_bytes
length-le_bytes x = refl

-- Swapping the bytes of a word twice gives the word again, on hosts of either order.
pub ac_bswap-ac_bswap :
    (little : Bool) (x : ℕ) → x < word_mod → ac_bswap little (ac_bswap little x) ≡ x
unfolding ac_bswap
ac_bswap-ac_bswap true x k = refl
ac_bswap-ac_bswap false x k = omega arith

flat :
    (a b c d e f rest : Bytes)
    → (a ++ (b ++ (c ++ (d ++ (e ++ f))))) ++ rest ≡ a ++ (b ++ (c ++ (d ++ (e ++ (f ++ rest)))))
flat a b c d e f rest = simp append_assoc

read_header-header_bytes :
    (h : PacketHeader) (rest : Bytes) → IsHeader h → read_header (header_bytes h ++ rest) ≡ some h
read_header-header_bytes h rest w =
    unfold read_header header_bytes netint ac_bswap in
    rw (
      flat (le_bytes h.magic) (le_bytes h.version) (le_bytes h.packet_type) (le_bytes h.data_type)
          (le_bytes h.data_len) (le_bytes h.sequence) rest,
      read_le-le_bytes h.magic _ w.magic,
      drop-le_bytes h.magic _,
      read_le-le_bytes h.version _ w.version,
      drop-le_bytes h.version _,
      read_le-le_bytes h.packet_type _ w.packet_type,
      drop-le_bytes h.packet_type _,
      read_le-le_bytes h.data_type _ w.data_type,
      drop-le_bytes h.data_type _,
      read_le-le_bytes h.data_len _ w.data_len,
      drop-le_bytes h.data_len _,
      read_le-le_bytes h.sequence _ w.sequence,
    )

drop-header_bytes : (h : PacketHeader) (rest : Bytes) → drop 24 (header_bytes h ++ rest) ≡ rest
unfolding header_bytes le_bytes
drop-header_bytes h rest = refl

length-header_bytes : (h : PacketHeader) → length (header_bytes h) ≡ 24
unfolding header_bytes le_bytes
length-header_bytes h = refl

read_behind :
    (h : PacketHeader) (rest : Bytes)
    → IsHeader h
    → ac_packet_read (header_bytes h ++ rest) ≡ read_data h rest
unfolding ac_packet_read
read_behind h rest w =
    let e : ltb (length (header_bytes h ++ rest)) 24 ≡ false =
      rw (length-append (header_bytes h) rest, length-header_bytes h) (ground arith) in
    rw (e, read_header-header_bytes h rest w, drop-header_bytes h rest)

-- What is read of a buffer is refused, reads behind the end of the buffer, or is the packet of the header and its data.
pub data Received (h : PacketHeader) : Bytes → ReadResult → Type 0 where
  too_long : {rest : Bytes} → 20481 ≤ h.data_len → Received h rest refused
  cut_off : {rest : Bytes} → h.data_len ≤ 20480 → length rest < h.data_len → Received h rest overrun
  whole :
      (bytes more : Bytes)
      → h.data_len ≤ 20480
      → length bytes ≡ h.data_len
      → Received h (bytes ++ more) (packet (record { header = h; content = bytes }))

split :
    (n : ℕ) (xs : Bytes) → n ≤ length xs → (xs ≡ take n xs ++ drop n xs) × (length (take n xs) ≡ n)
split zero xs l = (refl, refl)
split (suc n) [] l = absurd (omega arith)
split (suc n) (x ∷ xs) l = let (e, k) = split n xs (omega arith) in (ap (◌∷◌ x) e, omega (arith, k))

-- Behind a header of 32-bit words any bytes are read in one of three ways: refused where the header announces
-- more than 20480 bytes; else, where it announces more than there are, the copy reads behind the end of the buffer;
-- else the bytes that it announces are the data of the packet, and what is behind them is left out.
pub packet_read-header_bytes :
    (h : PacketHeader) (rest : Bytes)
    → IsHeader h
    → Received h rest (ac_packet_read (header_bytes h ++ rest))
unfolding read_data
packet_read-header_bytes h rest w = elim (Bool-cases (ltb max_recv_size h.data_len)) [
  | inl a ↦ rw (read_behind h rest w, a, read_data) (too_long (ground (arith, a)))
  | inr a ↦ elim (Bool-cases (ltb (length rest) h.data_len)) [
    | inl b ↦
        rw (read_behind h rest w, a, b, read_data) (cut_off (ground (arith, a)) (ground (arith, b)))
    | inr b ↦
        let (e, k) = split h.data_len rest (ground (arith, b)) in
        rw (read_behind h rest w, a, b, read_data)
          (subst
            (λ (z : Bytes).
              Received h z (packet (record { header = h; content = take h.data_len rest })))
            (sym e) (whole (take h.data_len rest) (drop h.data_len rest) (ground (arith, a)) k))
  ]
]

take-all : (xs : Bytes) → take (length xs) xs ≡ xs
take-all [] = refl
take-all (x ∷ xs) = ap (◌∷◌ x) (take-all xs)

-- A packet that was created and given data, with types and a number that are 32-bit words and data whose length leaves
-- room for the header below 2^32, is serialized to as many bytes as it says, and these are read again as the packet where
-- the data has at most 20480 bytes, and are refused where it has more.
pub packet_read-packet_serialize :
    (packet_type data_type sequence_number : ℕ) (bytes : Bytes)
    → packet_type < word_mod
    → data_type < word_mod
    → sequence_number < word_mod
    → 24 + length bytes < word_mod
    → (sent : Bytes) × (ac_packet_serialize
          (ac_packet_set_data (ac_packet_create packet_type data_type) bytes sequence_number)
        ≡ some (sent, length sent))
      × (ac_packet_read sent ≡ (
          if ltb max_recv_size (length bytes)
          then refused
          else packet
              (ac_packet_set_data (ac_packet_create packet_type data_type) bytes sequence_number)))
unfolding ac_packet_serialize ac_packet_set_data ac_packet_create read_data netint ac_bswap
    alca_magic
packet_read-packet_serialize packet_type data_type sequence_number bytes a b c d =
    let p = ac_packet_set_data (ac_packet_create packet_type data_type) bytes sequence_number in
    let l : length (header_bytes p.header ++ bytes) ≡ 24 + length bytes =
      length-append (header_bytes p.header) bytes
      ∙ ap (λ n. n + length bytes) (length-header_bytes p.header) in
    let t : wrap32 (24 + length bytes) ≡ 24 + length bytes = omega arith in
    let f : ltb (24 + length bytes) (24 + length bytes) ≡ false = ground arith in
    (
      header_bytes p.header ++ bytes,
      rw (t, f, l) refl,
      read_behind p.header bytes record {
        magic = omega arith;
        version = omega arith;
        packet_type = a;
        data_type = b;
        data_len = omega arith;
        sequence = c;
      }
          ∙ (let e : ltb (length bytes) (length bytes) ≡ false = ground arith in
              rw (e, take-all bytes)),
    )
