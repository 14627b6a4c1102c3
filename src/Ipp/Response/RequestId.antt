-- ===== src/Ipp/Response/RequestId.antt =====
-- The request identifier in the response to a print request.
use honeypots.Prelude.{
  ℕ, ◌+◌, ◌*◌, ◌/◌, ◌%◌, ◌<◌, ◌≡◌, ◌≢◌, arith, Bool, ◌||◌, Bool-cases, ◌^◌, ap, inl, inr, none, [],
  ◌∷◌, ◌++◌,
}
use honeypots.Python.Bytes.{Bytes, bytes_eq, slice}
use honeypots.Python.Result.{Result, ok, Result-cases}
use honeypots.Python.Struct.{pack_h, unpack_i}
use honeypots.Ipp.Attributes.Total.{parse_attributes_total}
use honeypots.Ipp.Head.{read_head}
use honeypots.Ipp.Response.{build_response, response_version, send_response}

-- `pack(">I", n)` for an n below 2 ^ 32
abbrev pub pack_i : ℕ → Bytes
pack_i n = (n / 16777216 % 256) ∷ (n / 65536 % 256) ∷ (n / 256 % 256) ∷ (n % 256) ∷ []

-- A request: the version, the operation, the identifier, and what follows.
abbrev pub request : ℕ → ℕ → ℕ → ℕ → Bytes → Bytes
request major minor operation id rest = major ∷ minor ∷ (pack_h operation ++ (pack_i id ++ rest))

-- The identifier of a response, in the four bytes behind the version and the status.
abbrev pub response_id : Bytes → Result ℕ
response_id response = unpack_i (slice 4 8 response)

response_version-two :
    (a b : ℕ) → (x : ℕ) × ((y : ℕ) × (response_version (a ∷ b ∷ []) ≡ x ∷ y ∷ []))
unfolding response_version
response_version-two a b =
    elim (Bool-cases (
      bytes_eq (a ∷ b ∷ []) (1 ∷ 1 ∷ [])
      || bytes_eq (a ∷ b ∷ []) (2 ∷ 0 ∷ [])
      || bytes_eq (a ∷ b ∷ []) (2 ∷ 1 ∷ [])
      || bytes_eq (a ∷ b ∷ []) (2 ∷ 2 ∷ []))) [ inl e ↦ (a, (b, rw e)) | inr e ↦ (2, (0, rw e)) ]

high_bytes :
    (x id : ℕ)
    → id < 2 ^ 32
    → ((x * 256 + id / 16777216 % 256) * 256 + id / 65536 % 256) * 256 + id / 256 % 256
      ≡ x * 16777216 + id / 256
high_bytes x id h = omega arith

-- Whatever the request and the status, the identifier of the response is not that of the request
-- but the low byte of its operation, followed by the three high bytes of its identifier: the bytes
-- 3 to 7 of the request are copied, and its identifier is at 4 to 8. The identifier of the request
-- is below 2 ^ 32.
pub send_response-request_id :
    (major minor operation id : ℕ) (rest : Bytes) (successful : Bool)
    → id < 2 ^ 32
    → response_id (send_response (request major minor operation id rest) successful)
      ≡ ok ((operation % 256) * 16777216 + id / 256)
unfolding send_response
send_response-request_id a b op id rest successful h =
    let (x, (y, e)) = response_version-two a b in
    elim (Bool-cases successful) [
      | inl t ↦ rw (e, t) (ap ok (high_bytes (op % 256) id h))
      | inr t ↦ rw (e, t) (ap ok (high_bytes (op % 256) id h))
    ]

-- `_build_response` returns on every request.
build_response_total : (data_ : Bytes) → build_response data_ ≢ none
unfolding build_response
build_response_total d = elim (Result-cases (read_head d)) [
  | inr (x, e) ↦ ground (arith, e)
  | inl (h, e) ↦ ground (arith, e, parse_attributes_total d h.index h.attr_type)
]
