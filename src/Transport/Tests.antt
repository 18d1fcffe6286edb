-- ===== src/Transport/Tests.antt =====
-- Concrete runs of the transport helpers, and the theorems at inputs that meet their hypotheses.
use magicdesk_x.Prelude.{
  ℕ, ◌+◌, ◌-◌, ◌*◌, ◌%◌, ◌^◌, ◌≤◌, ◌≡◌, refl, true, false, some, List, [], ◌∷◌, ◌++◌, arith, length,
}
use magicdesk_x.Prelude.Int.{pos}
use magicdesk_x.Transport.Socket.{
  Received, got, interrupted, complete, read_fully, Sent, accepted, send_interrupted, send_failed,
  written, write_fully,
}
use magicdesk_x.Transport.Socket.Laws.{
  stream, read_fully-complete, read_fully-total, write_fully-prefix,
}
use magicdesk_x.Transport.Lock.{
  Timespec, acquired, timed_out, lock_error, Attempt, locked, refused, broken_pipe, lock_shared,
  lock_shared-decides,
}
use magicdesk_x.Transport.Layout.{buffer_layout, buffer_layout-inside}

abbrev calls : List Received
calls = got (1 ∷ 2 ∷ []) ∷ interrupted ∷ got (3 ∷ []) ∷ got (4 ∷ []) ∷ []

three_bytes : read_fully calls 3 [] ≡ complete (1 ∷ 2 ∷ 3 ∷ []) (got (4 ∷ []) ∷ [])
unfolding read_fully
three_bytes = refl

read_fully-complete_example :
    (length {A = ℕ} (1 ∷ 2 ∷ 3 ∷ []) ≡ 3) × (1 ∷ 2 ∷ 3 ∷ stream (got (4 ∷ []) ∷ []) ≡ stream calls)
read_fully-complete_example =
    read_fully-complete calls 3 (1 ∷ 2 ∷ 3 ∷ []) (got (4 ∷ []) ∷ []) (omega arith) three_bytes

read_fully-total_example :
    (all : List ℕ) × (rest : List Received) × (read_fully calls 4 [] ≡ complete all rest)
read_fully-total_example = read_fully-total calls 4 (omega arith) tt (omega arith)

write_fully-prefix_example :
    let (r, out) =
      write_fully (accepted 2 ∷ send_interrupted ∷ send_failed ∷ []) (5 ∷ 6 ∷ 7 ∷ []) [] in
    (left : List ℕ) × (out ++ left ≡ 5 ∷ 6 ∷ 7 ∷ [])
    × ((after : List Sent) → r ≡ written after → left ≡ [])
write_fully-prefix_example =
    write_fully-prefix (accepted 2 ∷ send_interrupted ∷ send_failed ∷ []) (5 ∷ 6 ∷ 7 ∷ []) []

abbrev late : Timespec
late = record { sec = 7; nsec = 990000000 }

abbrev wait : Attempt
wait = record { now = late; outcome = timed_out; alive = true }

abbrev orphaned : Attempt
orphaned = record { now = late; outcome = timed_out; alive = false }

lock_shared-decides_example :
    let r = (lock_shared (wait ∷ wait ∷ orphaned ∷ []) []).0 in
    ((timed_out ≡ acquired) → r ≡ locked)
    × ((e : ℕ) → timed_out ≡ lock_error e → r ≡ refused e)
    × (timed_out ≡ timed_out → false ≡ false → r ≡ broken_pipe)
lock_shared-decides_example =
    lock_shared-decides (wait ∷ wait ∷ []) orphaned [] [] ((refl, refl), ((refl, refl), tt))

accepted_layout : buffer_layout (pos 5) (pos 8) (pos 3) 16 ≡ some 84
unfolding buffer_layout
accepted_layout = refl

buffer_layout-inside_example :
    ((2 * 8 + 4) * 4 + 4 ≤ 84)
    × (84 ≡ ((3 - 1) * 8 + 5) * 4)
    × (16 + 84 ≤ 2 ^ 63 - 1)
    × (16 % 4 ≡ 0)
buffer_layout-inside_example =
    buffer_layout-inside (pos 5) (pos 8) (pos 3) 16 84 4 2 (omega arith) accepted_layout
      (omega arith) (omega arith)
