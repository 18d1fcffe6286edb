-- ===== src/Transport/Socket.antt =====
-- `lorieReadFully` and `lorieWriteFully` of socket_io.h, and the notification of gpu_completion.h.
pub mod Laws
use magicdesk_x.Prelude.{
  ℕ, zero, suc, ◌+◌, ◌-◌, ◌*◌, ◌/◌, ◌%◌, ◌^◌, ◌≤◌, ◌<◌, min, max, ◌≡◌, refl, sym, ap, ◌∙◌, ◌≢◌, ◌↔◌,
  ◌⊎◌, inl, inr, Bool, true, false, not, ◌&&◌, ◌||◌, Option, none, some, List, [], ◌∷◌, ◌++◌, map,
  arith, ltb, leb, ◌==◌, if◌then◌else◌, ltb→lt, lt→ltb, leb→le, ==_iff, tests, Bool-cases,
  Option-cases, length, get_elem?, get_or, set, replicate, length-append, length-set,
  get_or-default, get_or-set_self, get_or-set_ne, All,
}
use magicdesk_x.Prelude.Int.{
  ℤ, pos, negsuc, pos_part, neg_part, sub_ℕ, ◌+ℤ◌, ◌-ℤ◌, ◌≤ℤ◌, ◌<ℤ◌, ltb_ℤ, leb_ℤ, eqb_ℤ, max_ℤ,
  min_ℤ, lt_ℤ-cases, int_laws, neg_part_of_le, negative_part, +ℤ_parts, -ℤ_parts, eq_of_parts,
}
use magicdesk_x.Prelude.Bits.{has_bit, set_bit, clear_bit}

-- What a call of `recv` returned: bytes (none at the end of the stream), EINTR or another error.
pub data Received : Type 0 where
  got : List ℕ → Received
  interrupted : Received
  failed : Received

-- The outcome of the loop, with the buffer and the calls that were not made.
pub data ReadResult : Type 0 where
  waiting : ReadResult
  stopped : List Received → ReadResult
  complete : List ℕ → List Received → ReadResult

-- The bytes are those that `cursor` has passed.
unfoldable pub read_fully : List Received → ℕ → List ℕ → ReadResult
read_fully script zero bytes = complete bytes script
read_fully [] (suc size) bytes = waiting
read_fully (interrupted ∷ script) (suc size) bytes = read_fully script (suc size) bytes
read_fully (failed ∷ script) (suc size) bytes = stopped script
read_fully (got [] ∷ script) (suc size) bytes = stopped script
read_fully (got (b ∷ chunk) ∷ script) (suc size) bytes =
    read_fully script (suc size - suc (length chunk)) (bytes ++ (b ∷ chunk))

-- What a call of `send` returned: a count, EINTR or another error.
pub data Sent : Type 0 where
  accepted : ℕ → Sent
  send_interrupted : Sent
  send_failed : Sent

pub data WriteResult : Type 0 where
  unsent : WriteResult
  aborted : WriteResult
  written : List Sent → WriteResult

abbrev pub drop : ℕ → List ℕ → List ℕ
drop zero xs = xs
drop (suc n) [] = []
drop (suc n) (x ∷ xs) = drop n xs

abbrev pub take : ℕ → List ℕ → List ℕ
take zero xs = []
take (suc n) [] = []
take (suc n) (x ∷ xs) = x ∷ take n xs

-- The list is `cursor[0 .. size)`; the second result is what has gone out on the wire.
unfoldable pub write_fully : List Sent → List ℕ → List ℕ → WriteResult × List ℕ
write_fully script [] wire = (written script, wire)
write_fully [] (b ∷ rest) wire = (unsent, wire)
write_fully (send_interrupted ∷ script) (b ∷ rest) wire = write_fully script (b ∷ rest) wire
write_fully (send_failed ∷ script) (b ∷ rest) wire = (aborted, wire)
write_fully (accepted zero ∷ script) (b ∷ rest) wire = (aborted, wire)
write_fully (accepted (suc n) ∷ script) (b ∷ rest) wire =
    write_fully script (drop n rest) (wire ++ (b ∷ take n rest))

-- What a call of `write` or `read` on the completion eventfd returned.
pub data Eventfd : Type 0 where
  transferred : ℕ → Eventfd
  eintr : Eventfd
  eagain : Eventfd
  other_error : Eventfd

-- `none` while every call so far was interrupted.
unfoldable pub notify_gpu_completion : List Eventfd → Option Bool
notify_gpu_completion [] = none
notify_gpu_completion (eintr ∷ script) = notify_gpu_completion script
notify_gpu_completion (transferred n ∷ script) = some (n == 8)
notify_gpu_completion (eagain ∷ script) = some true
notify_gpu_completion (other_error ∷ script) = some false

unfoldable pub consume_gpu_completion : List Eventfd → Option Bool
consume_gpu_completion [] = none
consume_gpu_completion (eintr ∷ script) = consume_gpu_completion script
consume_gpu_completion (transferred n ∷ script) = some (n == 8)
consume_gpu_completion (eagain ∷ script) = some false
consume_gpu_completion (other_error ∷ script) = some false
