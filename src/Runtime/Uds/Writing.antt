-- ===== src/Runtime/Uds/Writing.antt =====
-- `write_full`, whatever the system answers, and when it answers well.
use hasten.Common.{
  String, ℕ, zero, suc, ◌+◌, ◌≤◌, ◌≡◌, refl, sym, ◌∙◌, List, [], ◌∷◌, ◌++◌, append-nil,
  append_assoc, true, ◌==◌, ==_refl, Bool-cases, inl, inr, length, take, drop, take-drop,
  length-drop, All, arith,
}
use hasten.Runtime.Result.{Result, ok}
use hasten.Runtime.Uds.{
  eintr, WriteCall, write_failed, wrote, Kernel, Io, returns, waits, write_full,
}

-- Some bytes from the front were taken, and all of them if the call returns without an error.
pub record Wrote (bytes : List ℕ) (before after : Kernel) (r : Result (Unit {0})) : Type 0 where
  pub written : List ℕ
  pub unwritten : List ℕ
  pub all_bytes : bytes ≡ written ++ unwritten
  pub now_sent : after.sent ≡ before.sent ++ written
  pub untouched : after.incoming ≡ before.incoming
  pub finished : r ≡ ok tt → unwritten ≡ []

abbrev pub Writing : List ℕ → Kernel → Io (Unit {0}) → Type 0
Writing bytes k (returns r k') = Wrote bytes k k' r
Writing bytes k waits = Unit {0}

-- What was written after a first chunk was written after it.
Wrote-chunk :
    (n : ℕ) (bytes : List ℕ) (k : Kernel) (io : Io (Unit {0}))
    → Writing (drop n bytes) (record k { sent = k.sent ++ take n bytes }) io
    → Writing bytes k io
Wrote-chunk n bytes k (returns r k') w = record {
  written = take n bytes ++ w.written;
  unwritten = w.unwritten;
  all_bytes =
      sym (take-drop n bytes)
      ∙ rw w.all_bytes (sym (append_assoc (take n bytes) w.written w.unwritten));
  now_sent = w.now_sent ∙ append_assoc k.sent (take n bytes) w.written;
  untouched = w.untouched;
  finished = w.finished;
}
Wrote-chunk n bytes k waits w = tt

nothing_left :
    (calls : List WriteCall) (k : Kernel) → Wrote [] k (record k { writes = calls }) (ok tt)
nothing_left calls k = record {
  written = [];
  unwritten = [];
  all_bytes = refl;
  now_sent = sym (append-nil k.sent);
  untouched = refl;
  finished = λ e. refl;
}

-- Calls are interrupted, or they take a byte at least.
abbrev pub Serves : WriteCall → Type 0
Serves (write_failed errno) = errno ≡ eintr
Serves (wrote zero) = ⊥
Serves (wrote (suc n)) = Unit {0}

-- How many calls take bytes.
abbrev pub served : List WriteCall → ℕ
served [] = 0
served (write_failed errno ∷ calls) = served calls
served (wrote n ∷ calls) = suc (served calls)

-- The calls that are left when all bytes are written.
pub record Delivery (bytes : List ℕ) (k : Kernel) (calls : List WriteCall) (io : Io (Unit {0}))
    : Type 0 where
  pub rest : List WriteCall
  pub rest_serves : All Serves rest
  pub enough_left : served calls ≤ served rest + length bytes
  pub done : io ≡ returns (ok tt) (record k { writes = rest; sent = k.sent ++ bytes })

module _ (message : ℕ → String) where
  -- Whatever the system answers, what is sent is a front part of the bytes, and all of them if the
  -- call returns without an error.
  pub write_full-Writing :
      (calls : List WriteCall) (bytes : List ℕ) (k : Kernel)
      → Writing bytes k (write_full message calls bytes k)
  unfolding write_full
  write_full-Writing [] [] k = nothing_left [] k
  write_full-Writing (call ∷ calls) [] k = nothing_left (call ∷ calls) k
  write_full-Writing [] (byte ∷ bytes) k = tt
  write_full-Writing (write_failed errno ∷ calls) (byte ∷ bytes) k =
      elim (Bool-cases (errno == eintr)) [
        | inl again ↦ rw again (write_full-Writing calls (byte ∷ bytes) k)
        | inr broken ↦ rw broken (record {
          written = [];
          unwritten = byte ∷ bytes;
          all_bytes = refl;
          now_sent = sym (append-nil k.sent);
          untouched = refl;
          finished = λ e. cc;
        })
      ]
  write_full-Writing (wrote n ∷ calls) (byte ∷ bytes) k = Wrote-chunk n (byte ∷ bytes) k _ (
      write_full-Writing calls (drop n (byte ∷ bytes))
        (record k { sent = k.sent ++ take n (byte ∷ bytes) }))

  -- If every call is interrupted or takes a byte at least, and as many take bytes as there are
  -- bytes, then all bytes are written.
  pub write_full-Delivery :
      (calls : List WriteCall) (bytes : List ℕ) (k : Kernel)
      → All Serves calls
      → length bytes ≤ served calls
      → Delivery bytes k calls (write_full message calls bytes k)
  unfolding write_full
  write_full-Delivery [] [] k h enough = record {
    rest = [];
    rest_serves = tt;
    enough_left = omega arith;
    done = rw (append-nil k.sent) refl;
  }
  write_full-Delivery (call ∷ calls) [] k h enough = record {
    rest = call ∷ calls;
    rest_serves = h;
    enough_left = omega arith;
    done = rw (append-nil k.sent) refl;
  }
  write_full-Delivery [] (byte ∷ bytes) k h enough = absurd (omega (arith, enough))
  write_full-Delivery (write_failed errno ∷ calls) (byte ∷ bytes) k h enough =
      let d = write_full-Delivery calls (byte ∷ bytes) k h.1 enough in
      let interrupted : (errno == eintr) ≡ true = rw h.0 (==_refl eintr) in
      rw interrupted (record {
        rest = d.rest;
        rest_serves = d.rest_serves;
        enough_left = d.enough_left;
        done = d.done;
      })
  write_full-Delivery (wrote zero ∷ calls) (byte ∷ bytes) k h enough = absurd h.0
  write_full-Delivery (wrote (suc n) ∷ calls) (byte ∷ bytes) k h enough =
      let sent = k.sent ++ (byte ∷ take n bytes) in
      let d =
        write_full-Delivery calls (drop n bytes) (record k { sent = sent }) h.1
          (omega (arith, length-drop n bytes, enough)) in
      record {
        rest = d.rest;
        rest_serves = d.rest_serves;
        enough_left = omega (arith, length-drop n bytes, d.enough_left);
        done =
            d.done
            ∙ rw (append_assoc k.sent (byte ∷ take n bytes) (drop n bytes), take-drop n bytes) refl;
      }
