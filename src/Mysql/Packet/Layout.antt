-- ===== src/Mysql/Packet/Layout.antt =====
-- The layout of the packets: the length of a response, and the fields of a handshake response.
use honeypots.Prelude.{
  ℕ, ◌+◌, ◌-◌, ◌*◌, ◌^◌, ◌<◌, ◌≡◌, some, List, [], ◌∷◌, ◌++◌, length, drop, get_elem?,
  length-append, drop-append_at, get_elem?-append_add, append_assoc, arith, ◌==◌,
}
use honeypots.Python.Bytes.{Bytes, find, find_from, slice, join}
use honeypots.Python.Split.{Lacks, slice-middle}
use honeypots.Helper.{bytes}
use honeypots.Mysql.Packet.{create_response, parse_fields, parse_data}

-- The number in three little-endian bytes at the head of a packet.
abbrev pub packet_length : Bytes → ℕ
packet_length (a ∷ b ∷ c ∷ rest) = a + b * 256 + c * 65536
packet_length _ = 0

-- Every response is its length in three bytes, the sequence id and the joined payload, where the
-- payload is shorter than 2 ^ 24 bytes.
packet_length-create_response :
    (base : List Bytes) (id : ℕ)
    → length (join [] base) < 2 ^ 24
    → (packet_length (create_response base id) ≡ length (join [] base))
      × (drop 3 (create_response base id) ≡ id ∷ join [] base)
packet_length-create_response base id h = unfold create_response in ground arith

-- The position of a first zero.
find_from-append :
    (i : ℕ) (u rest : Bytes)
    → Lacks 0 u
    → find_from i (0 ∷ []) (u ++ 0 ∷ rest) ≡ some (i + length u)
unfolding find_from
find_from-append i [] rest h = ground arith
find_from-append i (x ∷ u) rest h = ground (arith, find_from-append (i + 1) u rest h.1)

-- The packet of a client: 36 bytes of flags, the name, a zero, the scramble with its length.
abbrev pub handshake_response : Bytes → Bytes → Bytes → Bytes → Bytes
handshake_response flags u scramble rest = flags ++ (u ++ 0 ∷ length scramble ∷ (scramble ++ rest))

module _ (flags u scramble rest : Bytes) (l : length flags ≡ 36) where
  abbrev packet : Bytes
  packet = handshake_response flags u scramble rest

  abbrev tail : Bytes
  tail = 0 ∷ length scramble ∷ (scramble ++ rest)

  behind_flags : drop 36 packet ≡ u ++ tail
  behind_flags = drop-append_at 36 flags (u ++ tail) l

  user_field : slice 36 (36 + length u) packet ≡ u
  user_field = rw (← l) (slice-middle flags u tail)

  length_byte : get_elem? packet (36 + length u + 2 - 1) ≡ some (length scramble)
  length_byte = rw (place, ← append_assoc flags u tail) (get_elem?-append_add (flags ++ u) tail 1)
    where
      place : 36 + length u + 2 - 1 ≡ length (flags ++ u) + 1
      place = omega (arith, l, length-append {0} flags u)

  password_field : slice (36 + length u + 2) (36 + length u + 2 + length scramble) packet ≡ scramble
  password_field = rw (place, regroup) (slice-middle before scramble rest)
    where
      before : Bytes
      before = flags ++ (u ++ 0 ∷ length scramble ∷ [])

      place : 36 + length u + 2 ≡ length before
      place = omega (
        arith,
        l,
        length-append {0} flags (u ++ 0 ∷ length scramble ∷ []),
        length-append {0} u (0 ∷ length scramble ∷ []),
      )

      regroup : packet ≡ before ++ (scramble ++ rest)
      regroup = simp append_assoc

  name_length : Lacks 0 u → find (0 ∷ []) (u ++ tail) ≡ some (length u)
  name_length h =
      unfold find in ground (arith, find_from-append 0 u (length scramble ∷ (scramble ++ rest)) h)

-- From the packet of a client, `parse_data` reads the name and the scramble, and the packet is good
-- exactly when the scramble has 20 bytes, for a name with no zero in it.
pub parse_data-handshake_response :
    (flags u scramble rest : Bytes)
    → length flags ≡ 36
    → Lacks 0 u
    → parse_data (handshake_response flags u scramble rest)
      ≡ record { username = bytes u; password = bytes scramble; good = length scramble == 20 }
unfolding parse_data parse_fields
parse_data-handshake_response flags u scramble rest l h = ground (
  arith,
  behind_flags flags u scramble rest l,
  name_length flags u scramble rest l h,
  user_field flags u scramble rest l,
  length_byte flags u scramble rest l,
  password_field flags u scramble rest l,
)
