-- ===== src/Runtime/Wire/RoundTrip.antt =====
-- Requests and responses, written and parsed again.
use hasten.Common.{
  ℕ, ◌^◌, ◌<◌, ◌≡◌, refl, sym, ap, subst, ◌∙◌, List, [], ◌∷◌, ◌++◌, append_assoc, leb-true, length,
  length-append, drop-append, IsU64, arith,
}
use hasten.Runtime.Result.{Result, ok, err, fault}
use hasten.Runtime.Varint.{encode_varint}
use hasten.Runtime.Payload.{SpanSource}
use hasten.Runtime.Payload.Laws.{source_at}
use hasten.Runtime.Hb1.Reader.Varints.{read_varint-encode_varint}
use hasten.Runtime.Rpc.{Encoding, hb1, encoding_id, status_byte, status_of, Response}
use hasten.Runtime.Wire.{
  read_varint, ParsedRequest, parse_rpc_request, parse_status, build_response_payload,
  parse_rpc_response,
}
use hasten.Runtime.Wire.Agreement.{Agree, readers_Agree}

-- What agrees with a number read is the number read.
Agree-ok :
    (buffer : List ℕ) (r : Result (ℕ × ℕ)) (w : ℕ) (s : SpanSource)
    → Agree buffer r (ok (w, s))
    → r ≡ ok (w, s.offset)
Agree-ok buffer (ok (v, offset)) w s (same, there) = rw (same, there) refl
Agree-ok buffer (err e) w s h = absurd h
Agree-ok buffer (fault x) w s h = absurd h

-- Where a number was written it is read.
read_number :
    (buffer front rest : List ℕ) (v : ℕ)
    → IsU64 v
    → length buffer < 2 ^ 64
    → buffer ≡ front ++ (encode_varint v ++ rest)
    → read_varint buffer (length front) ≡ ok (v, length (front ++ encode_varint v))
read_number buffer front rest v h fits e =
    let fits' = rw e at fits in
    rw e (
      Agree-ok _ _ v (source_at (front ++ encode_varint v) rest) (
        rw (read_varint-encode_varint v front rest h fits') at
          (readers_Agree front (encode_varint v ++ rest) fits')))

-- The bytes that a generated client writes for a request.
unfoldable pub request_bytes : ParsedRequest → List ℕ
request_bytes p =
    encode_varint p.request.module_id
    ++ (encode_varint p.request.interface_id
        ++ (encode_varint p.request.method_id
            ++ (encode_varint (encoding_id p.request.encoding)
                ++ (encode_varint p.request_id ++ p.request.payload))))

-- The members of a request are 64-bit numbers, and its encoding is the one there is.
pub record WellFormed (p : ParsedRequest) : Type 0 where
  pub module_u64 : IsU64 p.request.module_id
  pub interface_u64 : IsU64 p.request.interface_id
  pub method_u64 : IsU64 p.request.method_id
  pub encoding_hb1 : p.request.encoding ≡ hb1
  pub request_u64 : IsU64 p.request_id

abbrev request_of : ℕ → ℕ → ℕ → ℕ → List ℕ → ParsedRequest
request_of m_id i_id o_id r_id body = record {
  request = record {
    module_id = m_id;
    interface_id = i_id;
    method_id = o_id;
    encoding = hb1;
    payload = body;
  };
  request_id = r_id;
}

parse_members :
    (m_id i_id o_id r_id : ℕ) (body : List ℕ)
    → IsU64 m_id
    → IsU64 i_id
    → IsU64 o_id
    → IsU64 r_id
    → length (request_bytes (request_of m_id i_id o_id r_id body)) < 2 ^ 64
    → parse_rpc_request (request_bytes (request_of m_id i_id o_id r_id body))
      ≡ ok (request_of m_id i_id o_id r_id body)
unfolding parse_rpc_request request_bytes
parse_members m_id i_id o_id r_id body hm hi ho hr fits =
    let m = encode_varint m_id in
    let i = encode_varint i_id in
    let o = encode_varint o_id in
    let c = encode_varint 0 in
    let r = encode_varint r_id in
    let buffer = m ++ (i ++ (o ++ (c ++ (r ++ body)))) in
    let third : buffer ≡ (m ++ i) ++ (o ++ (c ++ (r ++ body))) =
      rw (append_assoc m i (o ++ (c ++ (r ++ body)))) refl in
    let fourth : buffer ≡ ((m ++ i) ++ o) ++ (c ++ (r ++ body)) =
      third ∙ rw (append_assoc (m ++ i) o (c ++ (r ++ body))) refl in
    let fifth : buffer ≡ (((m ++ i) ++ o) ++ c) ++ (r ++ body) =
      fourth ∙ rw (append_assoc ((m ++ i) ++ o) c (r ++ body)) refl in
    let front = (((m ++ i) ++ o) ++ c) ++ r in
    let whole : buffer ≡ front ++ body =
      fifth ∙ rw (append_assoc (((m ++ i) ++ o) ++ c) r body) refl in
    rw
      (
        read_number buffer [] (i ++ (o ++ (c ++ (r ++ body)))) m_id hm fits refl,
        read_number buffer m (o ++ (c ++ (r ++ body))) i_id hi fits refl,
        read_number buffer (m ++ i) (c ++ (r ++ body)) o_id ho fits third,
        read_number buffer ((m ++ i) ++ o) (r ++ body) 0 (omega arith) fits fourth,
        read_number buffer (((m ++ i) ++ o) ++ c) body r_id hr fits fifth,
      )
      (rw
        (
          whole,
          leb-true (length front) (length (front ++ body))
              (omega (arith, length-append front body)),
          drop-append front body,
        )
        refl)

-- A request written the way that a generated client writes it, in fewer than 2 ^ 64 bytes, is
-- parsed to the request.
pub parse_rpc_request-request_bytes :
    (p : ParsedRequest)
    → WellFormed p
    → length (request_bytes p) < 2 ^ 64
    → parse_rpc_request (request_bytes p) ≡ ok p
parse_rpc_request-request_bytes p h fits =
    let same : p ≡ record p { request = record p.request { encoding = hb1 } } =
      ap (λ (e : Encoding). record p { request = record p.request { encoding = e } })
        h.encoding_hb1 in
    subst (λ q. parse_rpc_request (request_bytes q) ≡ ok q) (sym same)
      (parse_members p.request.module_id p.request.interface_id p.request.method_id p.request_id
        p.request.payload h.module_u64 h.interface_u64 h.method_u64 h.request_u64
        (subst (λ q. length (request_bytes q) < 2 ^ 64) same fits))

-- A response whose status is the one that its byte is read as, built into fewer than 2 ^ 64 bytes
-- and parsed again, comes back unchanged.
pub parse_rpc_response-build_response_payload :
    (response : Response)
    → status_of (status_byte response.status) ≡ response.status
    → length (build_response_payload response.status response.body) < 2 ^ 64
    → parse_rpc_response (build_response_payload response.status response.body) ≡ ok response
unfolding parse_rpc_response build_response_payload parse_status
parse_rpc_response-build_response_payload response named fits =
    let e = encode_varint 0 in
    let b = status_byte response.status in
    let buffer = (e ++ (b ∷ [])) ++ response.body in
    let split : buffer ≡ e ++ (b ∷ response.body) = append_assoc e (b ∷ []) response.body in
    rw (read_number buffer [] (b ∷ response.body) 0 (omega arith) fits split)
      (rw (split, drop-append e (b ∷ response.body), named) refl)
