-- ===== src/Runtime/Wire/Total.antt =====
-- The parsers of src/runtime/context.cpp on any bytes.
use hasten.Common.{ℕ, ◌+◌, List, [], ◌∷◌, leb, ◌==◌, bit_and, drop, Bool-cases, inl, inr}
use hasten.Runtime.Result.{Result, ok, err, fault, ◌>>=◌, IsDefined}
use hasten.Runtime.Varint.{or_group}
use hasten.Runtime.Wire.{
  read_varint_rest, read_varint, parse_rpc_request, parse_rpc_response, parse_status,
}

>>=-IsDefined {ℓ κ} :
    {A : Type ℓ} {B : Type κ} (r : Result A) (f : A → Result B)
    → IsDefined r
    → ((a : A) → IsDefined (f a))
    → IsDefined (r >>= f)
>>=-IsDefined (ok a) f h k = k a
>>=-IsDefined (err e) f h k = tt
>>=-IsDefined (fault x) f h k = h

read_varint_rest-IsDefined :
    (acc shift offset : ℕ) (rest : List ℕ) → IsDefined (read_varint_rest acc shift offset rest)
unfolding read_varint_rest
read_varint_rest-IsDefined acc shift offset [] = tt
read_varint_rest-IsDefined acc shift offset (b ∷ rest) =
    let ih = read_varint_rest-IsDefined (or_group acc b shift) (shift + 7) (offset + 1) rest in
    elim (Bool-cases (bit_and b 0x80 == 0)) [
      | inl last ↦ rw last tt
      | inr inner ↦ rw inner (elim (Bool-cases (leb 64 (shift + 7))) [
        | inl long ↦ rw long tt
        | inr short ↦ rw short ih
      ])
    ]

read_varint-IsDefined : (buffer : List ℕ) (offset : ℕ) → IsDefined (read_varint buffer offset)
unfolding read_varint
read_varint-IsDefined buffer offset = read_varint_rest-IsDefined 0 0 offset (drop offset buffer)

-- Any payload at all is a request or an error.
pub parse_rpc_request-IsDefined : (payload : List ℕ) → IsDefined (parse_rpc_request payload)
unfolding parse_rpc_request
parse_rpc_request-IsDefined payload =
    >>=-IsDefined (read_varint payload 0) _ (read_varint-IsDefined payload 0) λ p.
      >>=-IsDefined (read_varint payload p.1) _ (read_varint-IsDefined payload p.1) λ q.
        >>=-IsDefined (read_varint payload q.1) _ (read_varint-IsDefined payload q.1) λ r.
          >>=-IsDefined (read_varint payload r.1) _ (read_varint-IsDefined payload r.1) λ t.
            elim (Bool-cases (t.0 == 0)) [
              | inl known ↦ rw known (
                  >>=-IsDefined (read_varint payload t.1) _ (read_varint-IsDefined payload t.1)
                    λ u. tt)
              | inr unknown ↦ rw unknown tt
            ]

pub parse_rpc_response-IsDefined : (payload : List ℕ) → IsDefined (parse_rpc_response payload)
unfolding parse_rpc_response parse_status
parse_rpc_response-IsDefined payload =
    >>=-IsDefined (read_varint payload 0) _ (read_varint-IsDefined payload 0) λ p.
      elim (Bool-cases (p.0 == 0)) [
        | inl known ↦ rw known (parse_status-IsDefined (drop p.1 payload))
        | inr unknown ↦ rw unknown tt
      ]
  where
    parse_status-IsDefined : (rest : List ℕ) → IsDefined (parse_status rest)
    parse_status-IsDefined [] = tt
    parse_status-IsDefined (status ∷ body) = tt
