-- ===== src/Transport/Socket/Laws.antt =====
-- The loops of socket_io.h move whole messages however the kernel cuts them up.
use mathlib.Core.List.{append_assoc}
use magicdesk_x.Prelude.{
  ℕ, zero, suc, ◌+◌, ◌-◌, ◌≤◌, ◌≡◌, refl, ap, ◌∙◌, List, [], ◌∷◌, ◌++◌, arith, length,
  length-append,
}
use magicdesk_x.Transport.Socket.{
  Received, got, interrupted, failed, ReadResult, waiting, stopped, complete, read_fully, Sent,
  accepted, send_interrupted, send_failed, written, drop, take, write_fully,
}

-- The documented behaviour of `recv`: no call of the loop returns more bytes than it was asked for.
abbrev pub Obeys : List Received → ℕ → Type 0
Obeys script zero = Unit
Obeys [] (suc size) = Unit
Obeys (interrupted ∷ script) (suc size) = Obeys script (suc size)
Obeys (failed ∷ script) (suc size) = Obeys script (suc size)
Obeys (got bytes ∷ script) (suc size) =
    (length bytes ≤ suc size) × Obeys script (suc size - length bytes)

-- All bytes that the calls deliver, in order.
abbrev pub stream : List Received → List ℕ
stream [] = []
stream (interrupted ∷ script) = stream script
stream (failed ∷ script) = stream script
stream (got bytes ∷ script) = bytes ++ stream script

-- A complete read holds exactly the bytes that it was asked for: the next ones of the stream, in
-- order, with nothing read past them.
abbrev pub ReadIsExact : List Received → ℕ → List ℕ → ReadResult → Type 0
ReadIsExact script size bytes waiting = Unit
ReadIsExact script size bytes (stopped rest) = Unit
ReadIsExact script size bytes (complete all rest) =
    (length all ≡ length bytes + size) × (all ++ stream rest ≡ bytes ++ stream script)

exact_shift :
    (script : List Received) (size : ℕ) (bytes chunk : List ℕ) (r : ReadResult)
    → length chunk ≤ size
    → ReadIsExact script (size - length chunk) (bytes ++ chunk) r
    → ReadIsExact (got chunk ∷ script) size bytes r
exact_shift script size bytes chunk waiting h e = tt
exact_shift script size bytes chunk (stopped rest) h e = tt
exact_shift script size bytes chunk (complete all rest) h (len, same) =
    (omega (arith, len, length-append bytes chunk), same ∙ append_assoc bytes chunk (stream script))

read_fully-exact :
    (script : List Received) (size : ℕ) (bytes : List ℕ)
    → Obeys script size
    → ReadIsExact script size bytes (read_fully script size bytes)
unfolding read_fully
read_fully-exact script zero bytes o = (omega arith, refl)
read_fully-exact [] (suc size) bytes o = tt
read_fully-exact (interrupted ∷ script) (suc size) bytes o =
    read_fully-exact script (suc size) bytes o
read_fully-exact (failed ∷ script) (suc size) bytes o = tt
read_fully-exact (got [] ∷ script) (suc size) bytes o = tt
read_fully-exact (got (b ∷ chunk) ∷ script) (suc size) bytes o =
    exact_shift script (suc size) bytes (b ∷ chunk)
      (read_fully script (suc size - suc (length chunk)) (bytes ++ (b ∷ chunk))) o.0
      (read_fully-exact script (suc size - suc (length chunk)) (bytes ++ (b ∷ chunk)) o.1)

-- However the kernel cuts the stream up and interrupts the calls, a read that completes has filled
-- the buffer with exactly the next `size` bytes of the stream, and has left the rest of it unread.
pub read_fully-complete :
    (script : List Received) (size : ℕ) (all : List ℕ) (rest : List Received)
    → Obeys script size
    → read_fully script size [] ≡ complete all rest
    → (length all ≡ size) × (all ++ stream rest ≡ stream script)
read_fully-complete script size all rest o h =
    let exact : ReadIsExact script size [] (complete all rest) =
      rw h at (read_fully-exact script size [] o) in
    (omega (arith, exact.0), exact.1)

-- Calls that neither fail nor end the stream.
abbrev pub Flows : List Received → Type 0
Flows [] = Unit
Flows (interrupted ∷ script) = Flows script
Flows (failed ∷ script) = ⊥
Flows (got [] ∷ script) = ⊥
Flows (got (b ∷ chunk) ∷ script) = Flows script

read_fully-Flows :
    (script : List Received) (size : ℕ) (bytes : List ℕ)
    → Obeys script size
    → Flows script
    → size ≤ length (stream script)
    → (all : List ℕ) × (rest : List Received) × (read_fully script size bytes ≡ complete all rest)
unfolding read_fully
read_fully-Flows script zero bytes o f h = (bytes, script, refl)
read_fully-Flows [] (suc size) bytes o f h = absurd (omega arith)
read_fully-Flows (interrupted ∷ script) (suc size) bytes o f h =
    read_fully-Flows script (suc size) bytes o f h
read_fully-Flows (failed ∷ script) (suc size) bytes o f h = absurd f
read_fully-Flows (got [] ∷ script) (suc size) bytes o f h = absurd f
read_fully-Flows (got (b ∷ chunk) ∷ script) (suc size) bytes o f h =
    read_fully-Flows script (suc size - suc (length chunk)) (bytes ++ (b ∷ chunk)) o.1 f
      (omega (arith, length-append (b ∷ chunk) (stream script)))

-- The read does complete once the stream has delivered enough bytes, whatever interruptions came in
-- between, if no call failed and the peer did not close.
pub read_fully-total :
    (script : List Received) (size : ℕ)
    → Obeys script size
    → Flows script
    → size ≤ length (stream script)
    → (all : List ℕ) × (rest : List Received) × (read_fully script size [] ≡ complete all rest)
read_fully-total script size o f h = read_fully-Flows script size [] o f h

take-append-drop : (n : ℕ) (xs : List ℕ) → take n xs ++ drop n xs ≡ xs
take-append-drop zero xs = refl
take-append-drop (suc n) [] = refl
take-append-drop (suc n) (x ∷ xs) = rw (take-append-drop n xs)

regroup :
    (n : ℕ) (wire : List ℕ) (b : ℕ) (rest : List ℕ)
    → (wire ++ (b ∷ take n rest)) ++ drop n rest ≡ wire ++ (b ∷ rest)
regroup n wire b rest =
    append_assoc wire (b ∷ take n rest) (drop n rest)
    ∙ ap (λ t. wire ++ (b ∷ t)) (take-append-drop n rest)

-- What has gone out is always a prefix of the message, in order and without repetition, however the
-- sends were cut up, interrupted or aborted; after a success it is the whole message.
pub write_fully-prefix :
    (script : List Sent) (message wire : List ℕ)
    → let (r, out) = write_fully script message wire in
      (left : List ℕ) × (out ++ left ≡ wire ++ message)
      × ((after : List Sent) → r ≡ written after → left ≡ [])
unfolding write_fully
write_fully-prefix script [] wire = ([], refl, λ after h. refl)
write_fully-prefix [] (b ∷ rest) wire = (b ∷ rest, refl, λ after h. cc)
write_fully-prefix (send_interrupted ∷ script) (b ∷ rest) wire =
    write_fully-prefix script (b ∷ rest) wire
write_fully-prefix (send_failed ∷ script) (b ∷ rest) wire = (b ∷ rest, refl, λ after h. cc)
write_fully-prefix (accepted zero ∷ script) (b ∷ rest) wire = (b ∷ rest, refl, λ after h. cc)
write_fully-prefix (accepted (suc n) ∷ script) (b ∷ rest) wire =
    let (left, same, done) = write_fully-prefix script (drop n rest) (wire ++ (b ∷ take n rest)) in
    (left, same ∙ regroup n wire b rest, done)
