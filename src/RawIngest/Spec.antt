-- ===== src/RawIngest/Spec.antt =====
-- What internal/transport/rawingest promises to a producer: each packet of the byte stream is written
-- to its unit as a whole or not at all, and answered by one byte.
pub mod Ingests
pub mod Stream
use mma.Base.{ℕ, ◌≡◌, ◌≢◌, Bool, if◌then◌else◌, Option, none, some, List, [], ◌∷◌, ok, err}
use mma.Words.{word_at}
use mma.Golang.Reader.{eof}
use mma.Memorycore.Area.{is_bit_area}
use mma.Memorycore.Bits.Loops.{bit_at}
use mma.Memorycore.Units.{Cells, Units, holds, put_bits_in, put_regs_in, with_unit}
use mma.RawIngest.Decoder.{Packet, PacketError, io, resp_ok, resp_rejected, decode_one}
use mma.RawIngest.Conn.{packet_id}

-- Every address of the packet has a value.
abbrev pub accepts : Cells → Packet → Bool
accepts c pkt =
    if is_bit_area pkt.area
    then holds (c.bit pkt.area) pkt.address pkt.count
    else holds (c.reg pkt.area) pkt.address pkt.count

-- The packet's bits, or its big-endian registers, put into its range.
abbrev pub put_packet : Cells → Packet → Cells
put_packet c pkt =
    if is_bit_area pkt.area
    then put_bits_in c pkt.area pkt.address pkt.count (bit_at pkt.payload)
    else put_regs_in c pkt.area pkt.address pkt.count (word_at pkt.payload)

-- The response to one packet, and the units after it.
module _ (u : Units) (pkt : Packet) (resp : ℕ) (u' : Units) where
  abbrev pub IsRejected : Type 0
  IsRejected = (resp ≡ resp_rejected) × (u' ≡ u)

  abbrev pub IsPut : Cells → Type 0
  IsPut c = (resp ≡ resp_ok) × (u' ≡ with_unit u (packet_id pkt) (put_packet c pkt))

  abbrev pub IsIngestedBy : Option Cells → Type 0
  IsIngestedBy none = IsRejected
  IsIngestedBy (some c) = if accepts c pkt then IsPut c else IsRejected

abbrev pub IsIngested : Units → Packet → ℕ → Units → Type 0
IsIngested u pkt resp u' = IsIngestedBy u pkt resp u' (u (packet_id pkt))

-- `Feeds port u input sent u'`: the rest of the stream is answered by these bytes. It ends at the end
-- of the stream, and at the first bytes that are no packet.
pub data Feeds (port : ℕ) : Units → List ℕ → List ℕ → Units → Type 0 where
  ended :
      (u : Units) (input : List ℕ) → decode_one input port ≡ err (io eof) → Feeds port u input [] u
  broken :
      (u : Units) (input : List ℕ) (e : PacketError)
      → decode_one input port ≡ err e
      → e ≢ io eof
      → Feeds port u input (resp_rejected ∷ []) u
  fed :
      (u : Units) (input : List ℕ) (pkt : Packet) (rest : List ℕ) (resp : ℕ) (u' : Units)
      (sent : List ℕ) (u'' : Units)
      → decode_one input port ≡ ok (pkt, rest)
      → IsIngested u pkt resp u'
      → Feeds port u' rest sent u''
      → Feeds port u input (resp ∷ sent) u''
