-- ===== src/Runtime/Uds/Taking.antt =====
-- How much of what has come a call of `UdsChannel` takes.
use hasten.Common.{
  ap, ◌++◌, String, ℕ, ◌+◌, ◌≤◌, ◌≡◌, refl, List, [], Bool-cases, inl, inr, Option, none, some, ltb,
  length, length-append, arith,
}
use hasten.Runtime.Result.{Result, ok, err, fault}
use hasten.Runtime.Frame.{Frame, FrameHeader, decode_header}
use hasten.Runtime.Uds.{
  Kernel, Io, returns, waits, ◌on_ok◌, UdsChannel, read_full, receive_payload, receive,
}
use hasten.Runtime.Uds.Reading.{Reading, read_full-Reading}

-- A call that returns a value has taken so many of the bytes that had come.
abbrev pub Takes {ℓ} : {A : Type ℓ} → ℕ → Kernel → Io A → Type 0
Takes n k (returns (ok a) k') = length k'.incoming + n ≤ length k.incoming
Takes n k (returns (err e) k') = Unit {0}
Takes n k (returns (fault x) k') = Unit {0}
Takes n k waits = Unit {0}

Takes-fewer : {A : Type 0} (m n : ℕ) (k : Kernel) (io : Io A) → m ≤ n → Takes n k io → Takes m k io
Takes-fewer m n k (returns (ok a) k') h t = omega (arith, h, t)
Takes-fewer m n k (returns (err e) k') h t = tt
Takes-fewer m n k (returns (fault x) k') h t = tt
Takes-fewer m n k waits h t = tt

Takes-later :
    {A : Type 0} (n : ℕ) (k k' : Kernel) (io : Io A)
    → length k'.incoming + n ≤ length k.incoming
    → Takes 0 k' io
    → Takes n k io
Takes-later n k k' (returns (ok a) k2) h t = omega (arith, h, t)
Takes-later n k k' (returns (err e) k2) h t = tt
Takes-later n k k' (returns (fault x) k2) h t = tt
Takes-later n k k' waits h t = tt

Takes-on_ok :
    {A B : Type 0} (n : ℕ) (k : Kernel) (io : Io A) (f : A → Kernel → Io B)
    → Takes n k io
    → ((a : A) (k' : Kernel) → Takes 0 k' (f a k'))
    → Takes n k (io on_ok f)
Takes-on_ok n k (returns (ok a) k') f h later = Takes-later n k k' (f a k') h (later a k')
Takes-on_ok n k (returns (err e) k') f h later = tt
Takes-on_ok n k (returns (fault x) k') f h later = tt
Takes-on_ok n k waits f h later = tt

Takes-returns : {A : Type 0} (r : Result A) (k : Kernel) → Takes 0 k (returns r k)
Takes-returns (ok a) k = omega arith
Takes-returns (err e) k = tt
Takes-returns (fault x) k = tt

module _ (message : ℕ → String) where
  Takes-read_full : (left : ℕ) (k : Kernel) → Takes left k (read_full message k.polls left [] k)
  Takes-read_full left k = of_reading _ (read_full-Reading message k.polls left [] k)
    where
      of_reading : (io : Io (List ℕ)) → Reading left [] k io → Takes left k io
      of_reading (returns (ok bytes) k') g =
          let whole : length k.incoming ≡ length (g.chunk ++ k'.incoming) =
            ap length g.from_front in
          omega (arith, whole, g.right_size, length-append g.chunk k'.incoming)
      of_reading (returns (err e) k') g = tt
      of_reading (returns (fault x) k') g = tt
      of_reading waits g = tt

  Takes-receive_payload :
      (header : FrameHeader) (k : Kernel) → Takes 0 k (receive_payload message header k)
  unfolding receive_payload
  Takes-receive_payload header k = elim (Bool-cases (ltb 0 header.length)) [
    | inl longer ↦
        rw (longer, receive_payload)
          (Takes-fewer 0 header.length k _ (omega arith) (
            Takes-on_ok header.length k _ _ (Takes-read_full header.length k) (λ bytes k'.
              Takes-returns {A = Frame} (ok record { header = header; payload = bytes }) k')))
    | inr nothing ↦ rw (nothing, receive_payload) (omega arith)
  ]

  pub Takes-receive : (c : UdsChannel) (k : Kernel) → Takes 1 k (receive message c k)
  unfolding receive
  Takes-receive c k = by_fd c.fd refl
    where
      by_fd : (fd : Option ℕ) → c.fd ≡ fd → Takes 1 k (receive message c k)
      by_fd none e = rw (e, receive) tt
      by_fd (some fd) e =
          rw (e, receive)
            (Takes-fewer 1 24 k _ (omega arith) (
              Takes-on_ok 24 k _ _
                (Takes-on_ok 24 k _ _ (Takes-read_full 24 k)
                  (λ buffer k1. Takes-returns (decode_header buffer) k1))
                (λ header k2. Takes-receive_payload header k2)))
