-- ===== src/Runtime/Uds/Reading.antt =====
-- `read_full`, whatever the system answers, and when it answers well.
use hasten.Common.{
  String, ℕ, zero, suc, ◌-◌, ◌≤◌, ◌≡◌, refl, sym, ap, ◌∙◌, List, [], ◌∷◌, ◌++◌, append-nil,
  append_assoc, true, false, ◌==◌, Bool-cases, inl, inr, length, length-append, take, drop, arith,
}
use hasten.Runtime.Result.{ok, err, fault}
use hasten.Runtime.Uds.{
  eintr, read_failed, got, PollCall, poll_failed, polled, Kernel, Io, returns, waits, read_full,
}

-- A call that returns bytes has the right number of them, taken from the front of what has come.
pub record Got (left : ℕ) (so_far bytes : List ℕ) (before after : Kernel) : Type 0 where
  pub chunk : List ℕ
  pub whole : bytes ≡ so_far ++ chunk
  pub right_size : length chunk ≡ left
  pub from_front : before.incoming ≡ chunk ++ after.incoming
  pub untouched : after.sent ≡ before.sent

abbrev pub Reading : ℕ → List ℕ → Kernel → Io (List ℕ) → Type 0
Reading left so_far k (returns (ok bytes) k') = Got left so_far bytes k k'
Reading left so_far k (returns (err e) k') = Unit {0}
Reading left so_far k (returns (fault x) k') = ⊥
Reading left so_far k waits = Unit {0}

-- What a read takes in a round.
abbrev chunk_of : ℕ → ℕ → Kernel → List ℕ
chunk_of n left k = take n (take left k.incoming)

chunk_front :
    (n left : ℕ) (xs : List ℕ)
    → take n (take left xs) ++ drop (length (take n (take left xs))) xs ≡ xs
chunk_front zero left xs = refl
chunk_front (suc n) zero xs = refl
chunk_front (suc n) (suc left) [] = refl
chunk_front (suc n) (suc left) (x ∷ xs) = ap (λ (t : List ℕ). x ∷ t) (chunk_front n left xs)

chunk_small : (n left : ℕ) (xs : List ℕ) → length (take n (take left xs)) ≤ left
chunk_small zero left xs = omega arith
chunk_small (suc n) zero xs = omega arith
chunk_small (suc n) (suc left) [] = omega arith
chunk_small (suc n) (suc left) (x ∷ xs) = omega (arith, chunk_small n left xs)

Reading-chunk :
    (n left : ℕ) (so_far : List ℕ) (k : Kernel) (io : Io (List ℕ))
    → (let c = chunk_of n left k in
        Reading
          (left - length c)
          (so_far ++ c)
          (record k { incoming = drop (length c) k.incoming })
          io)
    → Reading left so_far k io
Reading-chunk n left so_far k (returns (ok bytes) k') g = record {
  chunk = chunk_of n left k ++ g.chunk;
  whole = g.whole ∙ append_assoc so_far (chunk_of n left k) g.chunk;
  right_size = omega (
    arith,
    length-append (chunk_of n left k) g.chunk,
    g.right_size,
    chunk_small n left k.incoming,
  );
  from_front =
      sym (chunk_front n left k.incoming)
      ∙ rw g.from_front (sym (append_assoc (chunk_of n left k) g.chunk k'.incoming));
  untouched = g.untouched;
}
Reading-chunk n left so_far k (returns (err e) k') g = tt
Reading-chunk n left so_far k (returns (fault x) k') g = g
Reading-chunk n left so_far k waits g = tt

nothing_left :
    (polls : List PollCall) (so_far : List ℕ) (k : Kernel)
    → Got 0 so_far so_far k (record k { polls = polls })
nothing_left polls so_far k = record {
  chunk = [];
  whole = sym (append-nil so_far);
  right_size = refl;
  from_front = refl;
  untouched = refl;
}

module _ (message : ℕ → String) where
  -- Whatever the system answers, the bytes that a call returns are as many as were asked for, and
  -- were the first to come.
  pub read_full-Reading :
      (polls : List PollCall) (left : ℕ) (so_far : List ℕ) (k : Kernel)
      → Reading left so_far k (read_full message polls left so_far k)
  unfolding read_full
  read_full-Reading [] zero so_far k = nothing_left [] so_far k
  read_full-Reading (p ∷ polls) zero so_far k = nothing_left (p ∷ polls) so_far k
  read_full-Reading [] (suc left) so_far k = tt
  read_full-Reading (poll_failed errno ∷ polls) (suc left) so_far k =
      elim (Bool-cases (errno == eintr)) [
        | inl again ↦ rw again (read_full-Reading polls (suc left) so_far k)
        | inr broken ↦ rw broken tt
      ]
  read_full-Reading (polled true broken ready errno answer ∷ polls) (suc left) so_far k = tt
  read_full-Reading (polled false true ready errno answer ∷ polls) (suc left) so_far k = tt
  read_full-Reading (polled false false false errno answer ∷ polls) (suc left) so_far k =
      read_full-Reading polls (suc left) so_far k
  read_full-Reading (polled false false true errno (read_failed e) ∷ polls) (suc left) so_far k =
      elim (Bool-cases (e == eintr)) [
        | inl again ↦ rw again (read_full-Reading polls (suc left) so_far k)
        | inr broken ↦ rw broken tt
      ]
  read_full-Reading (polled false false true errno (got n) ∷ polls) (suc left) so_far k =
      let c = chunk_of n (suc left) k in
      elim (Bool-cases (length c == 0)) [
        | inl closed ↦ rw closed tt
        | inr some ↦ rw some (
            Reading-chunk n (suc left) so_far k _ (
              read_full-Reading polls (suc left - length c) (so_far ++ c)
                (record k { incoming = drop (length c) k.incoming })))
      ]
