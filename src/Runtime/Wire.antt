-- ===== src/Runtime/Wire.antt =====
-- The payloads of RPC frames: the reader of numbers, parse_rpc_request, build_response_payload and
-- parse_rpc_response of src/runtime/context.cpp.
pub mod Agreement
pub mod Total
pub mod RoundTrip
use hasten.Common.{
  ℕ, ◌+◌, bit_and, List, [], ◌∷◌, ◌++◌, leb, ◌==◌, not, if◌then◌else◌, length, drop,
}
use hasten.Runtime.Result.{Result, ok, ◌>>=◌, unexpected_result, transport_error}
use hasten.Runtime.Varint.{or_group, encode_varint}
use hasten.Runtime.Rpc.{hb1, encoding_id, Status, status_byte, status_of, Request, Response}

-- The loop of `read_varint`, on the buffer from the offset on. It gives the offset behind the
-- number.
read_varint_rest : ℕ → ℕ → ℕ → List ℕ → Result (ℕ × ℕ)
read_varint_rest result shift offset [] = unexpected_result transport_error "truncated varint"
read_varint_rest result shift offset (byte ∷ rest) =
    let result' = or_group result byte shift in
    let further = read_varint_rest result' (shift + 7) (offset + 1) rest in
    if bit_and byte 0x80 == 0
    then ok (result', offset + 1)
    else if leb 64 (shift + 7)
    then unexpected_result transport_error "varint too long"
    else further

unfoldable pub read_varint : List ℕ → ℕ → Result (ℕ × ℕ)
unfolding read_varint_rest
read_varint buffer offset = read_varint_rest 0 0 offset (drop offset buffer)

pub record ParsedRequest : Type 0 where
  pub request : Request
  pub request_id : ℕ  -- uint64_t

unfoldable pub parse_rpc_request : List ℕ → Result ParsedRequest
parse_rpc_request payload = do
  (module_id, o1) ← read_varint payload 0
  (interface_id, o2) ← read_varint payload o1
  (method_id, o3) ← read_varint payload o2
  (encoding, o4) ← read_varint payload o3
  if not (encoding == encoding_id hb1)
      then unexpected_result transport_error "unsupported encoding"
      else (do
        (request_id, offset) ← read_varint payload o4
        let request : Request = record {
          module_id = module_id;
          interface_id = interface_id;
          method_id = method_id;
          encoding = hb1;
          payload = if leb offset (length payload) then drop offset payload else [];
        }
        ok (record { request = request; request_id = request_id }))

-- Its local `append_varint` is the loop of `encode_varint_u64`.
unfoldable pub build_response_payload : Status → List ℕ → List ℕ
build_response_payload status body =
    (encode_varint (encoding_id hb1) ++ (status_byte status ∷ [])) ++ body

-- The byte at the offset and what follows it.
parse_status : List ℕ → Result Response
parse_status [] = unexpected_result transport_error "missing response status"
parse_status (status ∷ body) = ok (record { status = status_of status; body = body })

unfoldable pub parse_rpc_response : List ℕ → Result Response
unfolding parse_status
parse_rpc_response payload = do
  (encoding, offset) ← read_varint payload 0
  if not (encoding == encoding_id hb1)
      then unexpected_result transport_error "unsupported encoding"
      else parse_status (drop offset payload)
