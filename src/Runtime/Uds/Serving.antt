-- ===== src/Runtime/Uds/Serving.antt =====
-- `read_full` when the system answers well.
use hasten.Common.{
  String, ℕ, zero, suc, ◌+◌, ◌-◌, ◌≤◌, ◌≡◌, refl, sym, ◌∙◌, List, [], ◌∷◌, ◌++◌, append-nil,
  append_assoc, true, false, ◌==◌, ==_refl, length, take, drop, take-append, take-drop, length-drop,
  All, arith,
}
use hasten.Runtime.Result.{ok}
use hasten.Runtime.Uds.{
  eintr, read_failed, got, PollCall, poll_failed, polled, Kernel, Io, returns, read_full,
}

-- A round is interrupted, or idle, or it reads a byte at least.
abbrev pub Serves : PollCall → Type 0
Serves (poll_failed errno) = errno ≡ eintr
Serves (polled true broken ready errno answer) = ⊥
Serves (polled false true ready errno answer) = ⊥
Serves (polled false false false errno answer) = Unit {0}
Serves (polled false false true errno (read_failed e)) = e ≡ eintr
Serves (polled false false true errno (got zero)) = ⊥
Serves (polled false false true errno (got (suc n))) = Unit {0}

-- How many rounds read.
abbrev pub served : List PollCall → ℕ
served [] = 0
served (polled false false true errno (got n) ∷ polls) = suc (served polls)
served (p ∷ polls) = served polls

-- All of `now` was read, and what came behind it was not.
pub record Delivery (now after so_far : List ℕ) (k : Kernel) (polls : List PollCall)
    (io : Io (List ℕ)) : Type 0 where
  pub rest : List PollCall
  pub rest_serves : All Serves rest
  pub enough_left : served polls ≤ served rest + length now
  pub done : io ≡ returns (ok (so_far ++ now)) (record k { polls = rest; incoming = after })

-- What a round with an offer of `m` bytes leaves.
offer_rest :
    (m : ℕ) (now after : List ℕ) → drop (length (take m now)) (now ++ after) ≡ drop m now ++ after
offer_rest zero now after = refl
offer_rest (suc m) [] after = refl
offer_rest (suc m) (b ∷ now) after = offer_rest m now after

offer_length : (m : ℕ) (now : List ℕ) → length (drop m now) ≡ length now - length (take m now)
offer_length zero now = omega arith
offer_length (suc m) [] = omega arith
offer_length (suc m) (b ∷ now) = omega (arith, offer_length m now)

offer_front : (m : ℕ) (now so_far : List ℕ) → (so_far ++ take m now) ++ drop m now ≡ so_far ++ now
offer_front m now so_far = append_assoc so_far (take m now) (drop m now) ∙ rw (take-drop m now) refl

finished :
    (polls : List PollCall) (after so_far : List ℕ) (k : Kernel)
    → All Serves polls
    → k.incoming ≡ after
    → Delivery [] after so_far k polls (returns (ok so_far) (record k { polls = polls }))
finished polls after so_far k h e = record {
  rest = polls;
  rest_serves = h;
  enough_left = omega arith;
  done = rw (append-nil so_far, sym e) refl;
}

module _ (message : ℕ → String) where
  -- If every round is interrupted, idle or reads a byte at least, and as many read as bytes are
  -- asked for, and these have come, then they are read.
  pub read_full-Delivery :
      (polls : List PollCall) (now after so_far : List ℕ) (k : Kernel)
      → All Serves polls
      → length now ≤ served polls
      → k.incoming ≡ now ++ after
      → Delivery now after so_far k polls (read_full message polls (length now) so_far k)
  unfolding read_full
  read_full-Delivery [] [] after so_far k h enough e = finished [] after so_far k h e
  read_full-Delivery (p ∷ polls) [] after so_far k h enough e =
      finished (p ∷ polls) after so_far k h e
  read_full-Delivery [] (b ∷ now) after so_far k h enough e = absurd (omega (arith, enough))
  read_full-Delivery (poll_failed errno ∷ polls) (b ∷ now) after so_far k h enough e =
      let d = read_full-Delivery polls (b ∷ now) after so_far k h.1 enough e in
      let interrupted : (errno == eintr) ≡ true = rw h.0 (==_refl eintr) in
      rw interrupted (record {
        rest = d.rest;
        rest_serves = d.rest_serves;
        enough_left = d.enough_left;
        done = d.done;
      })
  read_full-Delivery (polled true broken ready errno answer ∷ polls) (b ∷ now) after so_far k h
        enough e =
      absurd h.0
  read_full-Delivery (polled false true ready errno answer ∷ polls) (b ∷ now) after so_far k h
        enough e =
      absurd h.0
  read_full-Delivery (polled false false false errno answer ∷ polls) (b ∷ now) after so_far k h
        enough e =
      let d = read_full-Delivery polls (b ∷ now) after so_far k h.1 enough e in
      record {
        rest = d.rest;
        rest_serves = d.rest_serves;
        enough_left = d.enough_left;
        done = d.done;
      }
  read_full-Delivery (polled false false true errno (read_failed x) ∷ polls) (b ∷ now) after so_far
        k h enough e =
      let d = read_full-Delivery polls (b ∷ now) after so_far k h.1 enough e in
      let interrupted : (x == eintr) ≡ true = rw h.0 (==_refl eintr) in
      rw interrupted (record {
        rest = d.rest;
        rest_serves = d.rest_serves;
        enough_left = d.enough_left;
        done = d.done;
      })
  read_full-Delivery (polled false false true errno (got zero) ∷ polls) (b ∷ now) after so_far k h
        enough e =
      absurd h.0
  read_full-Delivery (polled false false true errno (got (suc n)) ∷ polls) (b ∷ now) after so_far k
        h enough e =
      let all = b ∷ now in
      let front : take (length all) k.incoming ≡ all = rw e (take-append all after) in
      let d =
        read_full-Delivery polls (drop n now) after (so_far ++ (b ∷ take n now))
          (record k { incoming = drop n now ++ after }) h.1
          (omega (arith, length-drop n now, enough)) refl in
      let some : (suc (length (take n now)) == 0) ≡ false = ground arith in
      let size : suc (length now) - suc (length (take n now)) ≡ length (drop n now) =
        omega (arith, offer_length n now) in
      rw (front, some, size, e, offer_rest n now after)
        (record {
          rest = d.rest;
          rest_serves = d.rest_serves;
          enough_left = omega (arith, d.enough_left, length-drop n now);
          done = d.done ∙ rw (offer_front (suc n) (b ∷ now) so_far) refl;
        })
