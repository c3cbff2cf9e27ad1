-- ===== src/Runtime/Frame/Corruption.antt =====
-- A frame header in which one byte was changed on the way is not accepted.
use hasten.Common.{
  ℕ, suc, ◌+◌, ◌-◌, ◌≤◌, ◌≡◌, ◌≢◌, sym, ap, ◌∙◌, List, [], ◌∷◌, ◌++◌, length, take, drop, inl, inr,
  All, All-append_right, All-take, All-drop, IsByte, arith, take-append_front, take-append_past,
  drop-append_past, append_cancel_entry, length-append, length-drop, take-drop, leb, Bool-cases,
}
use hasten.Runtime.Result.{Error, ok, err, IsDefined, defined_cases}
use hasten.Runtime.Frame.Crc.{crc32}
use hasten.Runtime.Frame.Crc.Laws.{crc32-injective_byte}
use hasten.Runtime.Frame.Endian.{write_be32, read_be32}
use hasten.Runtime.Frame.Endian.Laws.{write_be32-read}
use hasten.Runtime.Frame.{FrameHeader, decode_header}
use hasten.Runtime.Frame.RoundTrip.{accepts_of_decode}

decode_header-IsDefined : (buffer : List ℕ) → IsDefined (decode_header buffer)
unfolding decode_header
decode_header-IsDefined buffer = ground arith

write_be32-read_four :
    (xs : List ℕ) → length xs ≡ 4 → All IsByte xs → write_be32 (read_be32 xs) ≡ xs
write_be32-read_four (a ∷ b ∷ c ∷ d ∷ []) n p =
    write_be32-read a b c d [] (p.0, p.1.0, p.1.1.0, p.1.1.1.0)
write_be32-read_four _ n p = absurd (omega arith)

-- The last four bytes of an accepted header are fixed by those before them.
tail_of_accepted :
    (buffer : List ℕ) (h : FrameHeader)
    → length buffer ≡ 24
    → All IsByte buffer
    → decode_header buffer ≡ ok h
    → write_be32 (crc32 (take 20 buffer)) ≡ drop 20 buffer
tail_of_accepted buffer h n p e =
    let (a, _) = accepts_of_decode buffer h e in
    ap write_be32 a.right_crc
    ∙ write_be32-read_four (drop 20 buffer) (omega (arith, length-drop 20 buffer))
        (All-drop IsByte 20 buffer p)

module _ (front back : List ℕ) (b b' : ℕ) (h h' : FrameHeader)
    (n : length (front ++ (b ∷ back)) ≡ 24) (p : All IsByte (front ++ (b ∷ back)))
    (p' : All IsByte (front ++ (b' ∷ back))) (e : decode_header (front ++ (b ∷ back)) ≡ ok h)
    (e' : decode_header (front ++ (b' ∷ back)) ≡ ok h') where
  back_bytes : All IsByte back
  back_bytes = (All-append_right IsByte front (b ∷ back) p).1

  same_length : length (front ++ (b' ∷ back)) ≡ 24
  same_length = omega (arith, length-append front (b ∷ back), length-append front (b' ∷ back))

  -- The changed byte is under the checksum.
  changed_field : (k : ℕ) → length front + suc k ≡ 20 → b ≡ b'
  changed_field k at =
      crc32-injective_byte front (take k back) b b' (All-append_right IsByte front _ p).0
        (All-append_right IsByte front _ p').0 (All-take IsByte k back back_bytes)
        (ap crc32 (sym (cut_taken b))
          ∙ (accepts_of_decode _ h e).0.right_crc
          ∙ ap read_be32 (cut_dropped b ∙ sym (cut_dropped b'))
          ∙ sym (accepts_of_decode _ h' e').0.right_crc
          ∙ ap crc32 (cut_taken b'))
    where
      cut_taken : (c : ℕ) → take 20 (front ++ (c ∷ back)) ≡ front ++ (c ∷ take k back)
      cut_taken c =
          ap (λ (m : ℕ). take m (front ++ (c ∷ back))) (sym at) ∙ take-append_past k front c back

      cut_dropped : (c : ℕ) → drop 20 (front ++ (c ∷ back)) ≡ drop k back
      cut_dropped c =
          ap (λ (m : ℕ). drop m (front ++ (c ∷ back))) (sym at) ∙ drop-append_past k front c back

  -- The changed byte is part of the checksum.
  changed_crc : 20 ≤ length front → b ≡ b'
  changed_crc past = append_cancel_entry front back b b' (
      whole b h n p e
      ∙ ap (λ (x : List ℕ). x ++ write_be32 (crc32 x)) (same_front b ∙ sym (same_front b'))
      ∙ sym (whole b' h' same_length p' e'))
    where
      same_front : (c : ℕ) → take 20 (front ++ (c ∷ back)) ≡ take 20 front
      same_front c = take-append_front 20 front (c ∷ back) past

      whole :
          (c : ℕ) (g : FrameHeader)
          → length (front ++ (c ∷ back)) ≡ 24
          → All IsByte (front ++ (c ∷ back))
          → decode_header (front ++ (c ∷ back)) ≡ ok g
          → front ++ (c ∷ back)
            ≡ take 20 (front ++ (c ∷ back)) ++ write_be32 (crc32 (take 20 (front ++ (c ∷ back))))
      whole c g m q d =
          let buffer = front ++ (c ∷ back) in
          sym (take-drop 20 buffer)
          ∙ ap (λ (x : List ℕ). take 20 buffer ++ x) (sym (tail_of_accepted buffer g m q d))

  -- Of two headers that differ in one byte at most one is accepted.
  at_most_one : b ≡ b'
  at_most_one = elim (Bool-cases (leb 20 (length front))) [
    | inl past ↦ changed_crc (ground arith)
    | inr within ↦ changed_field (19 - length front) (ground arith)
  ]

-- A header that is accepted is refused after any one of its 24 bytes is replaced by another byte.
pub decode_header_byte_change :
    (front back : List ℕ) (b b' : ℕ) (h : FrameHeader)
    → length (front ++ (b ∷ back)) ≡ 24
    → All IsByte (front ++ (b ∷ back))
    → All IsByte (front ++ (b' ∷ back))
    → decode_header (front ++ (b ∷ back)) ≡ ok h
    → b ≢ b'
    → (x : Error) × (decode_header (front ++ (b' ∷ back)) ≡ err x)
decode_header_byte_change front back b b' h n p p' e ne =
    elim (defined_cases (decode_header (front ++ (b' ∷ back))) (decode_header-IsDefined _)) [
      | inl (h', e') ↦ absurd (ne (at_most_one front back b b' h h' n p p' e e'))
      | inr refused ↦ refused
    ]
