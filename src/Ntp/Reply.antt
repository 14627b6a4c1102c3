-- ===== src/Ntp/Reply.antt =====
-- The answer of ntp_server.py to a request.
use honeypots.Prelude.{
  ℕ, ◌+◌, ◌*◌, ◌^◌, ◌≤◌, ◌<◌, ◌≡◌, refl, arith, Bool-cases, inl, inr, [], ◌∷◌, ◌++◌, length, drop,
  replicate, ltb, lt→ltb,
}
use honeypots.Python.Bytes.{Bytes, Text, codes}
use honeypots.Python.Result.{ok, raised, struct_error}
use honeypots.Python.Struct.{pack_q}
use honeypots.Python.Value.{Fields, text, int, item, word, fields, dict, update}
use honeypots.Session.{logged}
use honeypots.Base.{Server, Peer, log, log_connection, server_items}
use honeypots.Ntp.{Now, timestamp, response, version_of, mode_of, datagram_received}

-- A request of at least eleven bytes.
abbrev pub request : ℕ → ℕ → ℕ → ℕ → Bytes → ℕ → Bytes → Bytes
request first stratum poll precision six echoed rest =
    first ∷ stratum ∷ poll ∷ precision ∷ (six ++ echoed ∷ rest)

-- the number in eight bytes
abbrev pub long_of : Bytes → ℕ
long_of (a ∷ b ∷ c ∷ d ∷ e ∷ f ∷ g ∷ h ∷ []) =
    ((((((a * 256 + b) * 256 + c) * 256 + d) * 256 + e) * 256 + f) * 256 + g) * 256 + h
long_of _ = 0

long_of-pack_q : (n : ℕ) → n < 2 ^ 64 → long_of (pack_q n) ≡ n
long_of-pack_q n h = omega arith

abbrev reply_of : Now → ℕ → ℕ → ℕ → ℕ → Bytes
reply_of now stratum poll precision echoed =
    26
    ∷ stratum
    ∷ poll
    ∷ precision
    ∷ (replicate 20 0 ++ (pack_q echoed ++ (pack_q 0 ++ pack_q (timestamp now))))

-- A request of at least eleven bytes whose precision is below 128 is answered by 48 bytes that end in
-- the present time, as long as that is below 2 ^ 64.
pub response-request :
    (now : Now) (first stratum poll precision a b c d e f echoed : ℕ) (rest : Bytes)
    → precision < 128
    → timestamp now < 2 ^ 64
    → (reply : Bytes) × (response now
          (request first stratum poll precision (a ∷ b ∷ c ∷ d ∷ e ∷ f ∷ []) echoed rest)
        ≡ ok reply)
      × (length reply ≡ 48)
      × (long_of (drop 40 reply) ≡ timestamp now)
unfolding response
response-request now first stratum poll precision a b c d e f echoed rest h t = (
  reply_of now stratum poll precision echoed,
  rw (lt→ltb precision 128 h, lt→ltb (timestamp now) (2 ^ 64) t, response) refl,
  refl,
  long_of-pack_q (timestamp now) t,
)

-- the entry of a request
abbrev pub query_entry : Server → Peer → Bytes → Text → Fields
query_entry q addr data_ status =
    update
      (fields (
        word "action" "query"
        ∷ item "status" (text status)
        ∷ item "src_ip" (text addr.host)
        ∷ item "src_port" (int addr.port)
        ∷ item "data"
            (dict (fields (item "version" (version_of data_) ∷ item "mode" (mode_of data_) ∷ [])))
        ∷ []))
      (server_items q)

response_precision :
    (now : Now) (first stratum poll precision a b c d e f echoed : ℕ) (rest : Bytes)
    → 128 ≤ precision
    → response now (request first stratum poll precision (a ∷ b ∷ c ∷ d ∷ e ∷ f ∷ []) echoed rest)
      ≡ raised struct_error
unfolding response
response_precision now first stratum poll precision a b c d e f echoed rest h =
    elim (Bool-cases (ltb precision 128)) [
      | inl t ↦ ground (arith, t)
      | inr t ↦ rw (t, response) refl
    ]

-- A request of at least eleven bytes whose precision is 128 or more, a negative one, is not answered,
-- and logged as failed: the byte does not fit the signed format it is packed with.
pub datagram_received_precision :
    {S : Type 0} (q : Server) (now : Now) (addr : Peer)
    (first stratum poll precision a b c d e f echoed : ℕ) (rest : Bytes) (s : S)
    → 128 ≤ precision
    → datagram_received q now
        (request first stratum poll precision (a ∷ b ∷ c ∷ d ∷ e ∷ f ∷ []) echoed rest)
        addr
        s
      ≡ (
        ok tt,
        s,
        (log_connection q addr s).2
            ++ logged (query_entry q addr (first ∷ []) (codes "failed")) ∷ [],
      )
unfolding datagram_received log
datagram_received_precision q now addr first stratum poll precision a b c d e f echoed rest s h =
    rw (response_precision now first stratum poll precision a b c d e f echoed rest h) refl
