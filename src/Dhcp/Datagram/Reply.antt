-- ===== src/Dhcp/Datagram/Reply.antt =====
-- The options of a reply, as the parser of the same server reads them.
use honeypots.Prelude.{
  ℕ, ◌≤◌, ◌≡◌, ◌≢◌, true, List, [], ◌∷◌, ◌++◌, length, take, drop, replicate, length-append,
  length-take, length-drop, take-append_at, drop-append_at, append_assoc, All, arith, ◌==◌,
}
use honeypots.Python.Bytes.{Bytes, Text, codes, slice}
use honeypots.Python.Result.{Result, ok}
use honeypots.Dhcp.Options.{parse_options}
use honeypots.Dhcp.Options.RoundTrip.{encode_options, options_onto, parse-encode_options_end}
use honeypots.Dhcp.Datagram.{Network, reply_options, payload}

-- What is documented of `inet_aton`: an address is four bytes.
abbrev pub GivesFour : (Text → Result Bytes) → Text → Bytes → Type 0
GivesFour inet_aton address bytes_ = (inet_aton address ≡ ok bytes_) × (length bytes_ ≡ 4)

pub record Addresses : Type 0 where
  pub lease : Bytes
  pub server : Bytes
  pub mask : Bytes
  pub router : Bytes
  pub dns : Bytes
  pub any_address : Bytes

pub record Resolves (inet_aton : Text → Result Bytes) (n : Network) (a : Addresses) : Type 0 where
  pub lease : GivesFour inet_aton n.dhcp_ip_lease a.lease
  pub server : GivesFour inet_aton n.dhcp_ip a.server
  pub mask : GivesFour inet_aton n.subnet_mask a.mask
  pub router : GivesFour inet_aton n.router a.router
  pub dns : GivesFour inet_aton n.dns_server a.dns
  pub any_address : GivesFour inet_aton (codes "0.0.0.0") a.any_address

-- the options that a reply carries
abbrev pub carried : ℕ → Addresses → List (ℕ × Bytes)
carried value a =
    (53, value ∷ [])
    ∷ (54, a.server)
    ∷ (1, a.mask)
    ∷ (3, a.router)
    ∷ (6, a.dns)
    ∷ (51, 0x00 ∷ 0x00 ∷ 0xa8 ∷ 0xc0 ∷ [])
    ∷ []

cons-ne-nil : (x : ℕ) (xs : Bytes) → x ∷ xs ≢ []
cons-ne-nil x xs e = cc

four-ne-nil : (xs : Bytes) → length xs ≡ 4 → xs ≢ []
four-ne-nil [] h = absurd (omega arith)
four-ne-nil (x ∷ xs) h = cons-ne-nil x xs

long_enough : (message : Bytes) → 44 ≤ length message → (length (take 44 message) == 44) ≡ true
long_enough message h = ground (arith, length-take 44 message)

module _ (inet_aton : Text → Result Bytes) (n : Network) (a : Addresses)
    (r : Resolves inet_aton n a) where
  reply_options_lem :
      (value : ℕ)
      → reply_options inet_aton n value ≡ ok (encode_options (carried value a) ++ 0xff ∷ [])
  unfolding reply_options
  reply_options_lem value = simp (
    append_assoc, r.server.0, r.mask.0, r.router.0, r.dns.0, r.server.1, r.mask.1, r.router.1,
    r.dns.1,
  )

  carried-full : (value : ℕ) → All (λ o. o.1 ≢ []) (carried value a)
  carried-full value = (
    cons-ne-nil value [],
    (
      four-ne-nil a.server r.server.1,
      (
        four-ne-nil a.mask r.mask.1,
        (four-ne-nil a.router r.router.1, (four-ne-nil a.dns r.dns.1, (cons-ne-nil 0x00 _, tt))),
      ),
    ),
  )

  -- the part of the reply before its options
  abbrev reply_head : Bytes → Bytes
  reply_head message =
      (2 ∷ 1 ∷ 6 ∷ 0 ∷ slice 4 8 message)
      ++ (replicate 8 0
          ++ (a.lease
              ++ (a.server
                  ++ (a.any_address
                      ++ (slice 28 44 message
                          ++ (replicate 64 0
                              ++ (replicate 128 0 ++ 0x63 ∷ 0x82 ∷ 0x53 ∷ 0x63 ∷ [])))))))

  payload_lem :
      (value : ℕ) (message : Bytes)
      → 44 ≤ length message
      → payload inet_aton n value message
        ≡ ok (reply_head message ++ (encode_options (carried value a) ++ 0xff ∷ []))
  unfolding payload
  payload_lem value message h =
      rw (long_enough message h, payload)
        (simp (append_assoc, r.lease.0, r.server.0, r.any_address.0, reply_options_lem value))

  length-reply_head : (message : Bytes) → 44 ≤ length message → length (reply_head message) ≡ 240
  length-reply_head message h =
      simp (length-append, length-take, length-drop, r.lease.1, r.server.1, r.any_address.1)
        (omega arith)

  -- For every request of at least 44 bytes and addresses that `inet_aton` turns into four bytes each,
  -- `payload` gives a reply; what `parse_options` reads behind its 240 bytes are exactly the message
  -- type, server, mask, router, name server and lease time options that were put in, and the
  -- reply's transaction id is the request's.
  pub payload-parse_options :
      (value : ℕ) (message : Bytes)
      → 44 ≤ length message
      → (reply : Bytes) × (payload inet_aton n value message ≡ ok reply)
        × (parse_options (drop 240 reply) ≡ options_onto [] (carried value a))
        × (slice 4 8 reply ≡ slice 4 8 message)
  payload-parse_options value message h =
      (reply_head message ++ tail, payload_lem value message h, read, id)
    where
      tail : Bytes
      tail = encode_options (carried value a) ++ 0xff ∷ []

      behind : drop 240 (reply_head message ++ tail) ≡ tail
      behind = drop-append_at 240 (reply_head message) tail (length-reply_head message h)

      read :
          parse_options (drop 240 (reply_head message ++ tail)) ≡ options_onto [] (carried value a)
      read = rw behind (parse-encode_options_end (carried value a) 0xff (carried-full value))

      id : slice 4 8 (reply_head message ++ tail) ≡ slice 4 8 message
      id =
          rw append_assoc
            (take-append_at 4 (slice 4 8 message) _ (simp (length-take, length-drop) (omega arith)))
