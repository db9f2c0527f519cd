-- ===== src/Packet.antt =====
-- libalca/packet.c and libalca/utils.c: the packets between sensors and servers, on a little-endian host.
pub mod RoundTrip
use alca.Base.{
  ℕ, ◌+◌, ◌*◌, ◌/◌, ◌%◌, Bool, true, Option, none, some, ◌>>=◌, List, ◌++◌, ltb, if◌then◌else◌,
  length, take, drop, Bytes,
}
use alca.Base.Words.{wrap32, le_bytes, read_le}

-- `ac_bswap`, given what LITTLE_ENDIAN is. The masks take one byte each, so that `|` adds them.
unfoldable pub ac_bswap : Bool → ℕ → ℕ
ac_bswap little x =
    if little
    then x
    else x / 16777216 % 256 + x / 65536 % 256 * 256 + x / 256 % 256 * 65536 + x % 256 * 16777216

unfoldable pub netint : ℕ → ℕ
netint x = ac_bswap true x

-- ALCA_MAGIC, ALCA_VERSION and AC_PACKET_MAX_RECV_SIZE
unfoldable pub alca_magic : ℕ
alca_magic = netint 1094929473

abbrev pub alca_version : ℕ
alca_version = 1

abbrev pub max_recv_size : ℕ
max_recv_size = 20480

-- `ac_packet_header`
pub record PacketHeader : Type 0 where
  pub magic : ℕ
  pub version : ℕ
  pub packet_type : ℕ
  pub data_type : ℕ
  pub data_len : ℕ
  pub sequence : ℕ

-- `struct ac_packet`; `content` is `data`, and a NULL pointer is no bytes.
pub record Packet : Type 0 where
  pub header : PacketHeader
  pub content : Bytes

-- `ac_packet_create`, with a place for the handle
unfoldable pub ac_packet_create : ℕ → ℕ → Packet
ac_packet_create packet_type data_type = record {
  header = record {
    magic = netint alca_magic;
    version = netint alca_version;
    packet_type = netint packet_type;
    data_type = netint data_type;
    data_len = 0;
    sequence = 0;
  };
  content = List.[];
}

unfoldable pub ac_packet_set_data : Packet → Bytes → ℕ → Packet
ac_packet_set_data p bytes sequence_number = record {
  header = record p.header { data_len = length bytes; sequence = netint sequence_number };
  content = bytes;
}

-- the memory of a header
unfoldable pub header_bytes : PacketHeader → Bytes
header_bytes h =
    le_bytes h.magic
    ++ (le_bytes h.version
        ++ (le_bytes h.packet_type
            ++ (le_bytes h.data_type ++ (le_bytes h.data_len ++ le_bytes h.sequence))))

-- The bytes and `total_size`. `ac_alloc` takes a 32-bit size; `none` is a copy behind the end of the block that it gives
-- where 24 more than the data's length does not fit.
unfoldable pub ac_packet_serialize : Packet → Option (Bytes × ℕ)
ac_packet_serialize p =
    let total = wrap32 (24 + p.header.data_len) in
    if ltb total (24 + p.header.data_len)
    then none
    else some
        (header_bytes (record p.header { data_len = netint p.header.data_len }) ++ p.content, total)

-- the result of `ac_packet_read`: the packet, -1, or a read behind the end of the buffer
pub data ReadResult : Type 0 where
  packet : Packet → ReadResult
  refused : ReadResult
  overrun : ReadResult

-- `netint(*ptr++)`
abbrev pub read_netint : Bytes → (ℕ → Bytes → Option PacketHeader) → Option PacketHeader
read_netint bytes k = read_le bytes >>= λ x. k (netint x) (drop 4 bytes)

unfoldable pub read_header : Bytes → Option PacketHeader
read_header bytes = read_netint bytes λ magic b₁. read_netint b₁ λ version b₂.
    read_netint b₂ λ packet_type b₃. read_netint b₃ λ data_type b₄. read_netint b₄ λ data_len b₅.
      read_netint b₅ λ sequence b₆. some (record {
        magic = magic;
        version = version;
        packet_type = packet_type;
        data_type = data_type;
        data_len = data_len;
        sequence = sequence;
      })

-- The copy of the data takes as many bytes as the header says.
unfoldable pub read_data : PacketHeader → Bytes → ReadResult
read_data h rest =
    if ltb max_recv_size h.data_len
    then refused
    else if ltb (length rest) h.data_len
    then overrun
    else packet (record { header = h; content = take h.data_len rest })

unfoldable pub ac_packet_read : Bytes → ReadResult
ac_packet_read bytes =
    if ltb (length bytes) 24
    then refused
    else elim (read_header bytes) [ none ↦ overrun | some h ↦ read_data h (drop 24 bytes) ]
