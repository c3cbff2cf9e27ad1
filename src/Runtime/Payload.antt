-- ===== src/Runtime/Payload.antt =====
-- src/runtime/include/hasten/runtime/serialization/payload.hpp: the sink that writes to a vector,
-- and the source that reads from a span.
pub mod Laws
use hasten.Common.{ℕ, ◌+◌, ◌%◌, ◌^◌, List, ◌++◌, Bool, ltb, leb, if◌then◌else◌, length, take, drop}
use hasten.Runtime.Result.{
  Result, ok, err, fault, ◌>>=◌, out_of_range, unexpected_result, transport_error,
}

-- A step that writes to a sink: its result, and the buffer, which keeps what was written before an
-- error.
abbrev pub Write : Type 0
Write = List ℕ → Result (Unit {0}) × List ℕ

-- `VectorSink::append`
unfoldable pub append : List ℕ → Write
append bytes buffer = (ok tt, buffer ++ bytes)

-- `if (auto res = first; !res) { return res; } return second;`
abbrev go_on : Result (Unit {0}) → Write → Write
go_on (ok _) second buffer = second buffer
go_on (err e) second buffer = (err e, buffer)
go_on (fault x) second buffer = (fault x, buffer)

infixr 6 ◌and_then◌
unfoldable pub ◌and_then◌ : Write → Write → Write
◌and_then◌ first second buffer = let (r, written) = first buffer in go_on r second written

pub record SpanSource : Type 0 where
  pub bytes : List ℕ
  pub offset : ℕ  -- size_t

abbrev pub source_of : List ℕ → SpanSource
source_of bytes = record { bytes = bytes; offset = 0 }

-- `SpanSource::read`. The sum wraps as a `size_t`; where it has, `subspan` is undefined.
unfoldable pub read : SpanSource → ℕ → Result (List ℕ × SpanSource)
read s size =
    if ltb (length s.bytes) ((s.offset + size) % 2 ^ 64)
    then unexpected_result transport_error "payload underrun"
    else if ltb (length s.bytes) (s.offset + size)
    then fault out_of_range
    else ok (take size (drop s.offset s.bytes), record s { offset = s.offset + size })

unfoldable pub empty : SpanSource → Bool
empty s = leb (length s.bytes) s.offset
