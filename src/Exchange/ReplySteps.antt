-- ===== src/Exchange/ReplySteps.antt =====
-- The same of the list of targets and of the replies of the host.
use magicdesk_x.Prelude.{
  option-both, ℕ, ◌-◌, ◌*◌, ◌≤◌, ◌<◌, ◌≡◌, refl, ap, Bool, true, false, not, ◌||◌, Option, none,
  some, List, [], ◌∷◌, arith, ltb, leb, ◌==◌, if◌then◌else◌, if-both, length,
}
use magicdesk_x.Exchange.{
  max_bytes, max_targets, chunk_size, Transfer, DataState, change_words, close_file,
  selection_notify, DataOutcome, ◌|>◌, DataEnv,
}
use magicdesk_x.Exchange.Transfers.{
  transfer_at, put_transfer, notify, release, end_transfer, fail, supported_name,
}
use magicdesk_x.Exchange.Chunks.{send_chunk}
use magicdesk_x.Exchange.Replies.{
  HostFile, HostEvent, until_zero, all_lines, full_lines, named_targets, read_targets,
  replied_transfer, file_size, reply_incremental, reply_whole, reply_file, then_close, reply_to,
  host_replied,
}
use magicdesk_x.Exchange.Protocol.{phase_of, replay, replay-append}
use magicdesk_x.Exchange.Steps.{
  IsStep, then-IsStep, from_put-IsStep, put-IsStep, quiet-IsStep, IsQuiet, transfer_at-IsSized,
  release-IsStep, end_transfer-IsStep, fail-IsStep,
}
use magicdesk_x.Exchange.ChunkSteps.{send_chunk-IsStep}
use magicdesk_x.Exchange.SelectionSteps.{nothing-IsStep}

-- An option that is bounded where it is something.
abbrev pub IsAtMost : ℕ → Option (List ℕ) → Type 0
IsAtMost bound none = Unit
IsAtMost bound (some xs) = length xs ≤ bound

one_more :
    (room name : ℕ) (o : Option (List ℕ))
    → 0 < room
    → IsAtMost (room - 1) o
    → IsAtMost room (elim o as (λ p. Option (List ℕ)) [ none ↦ none | some xs ↦ some (name ∷ xs) ])
one_more room name none h k = tt
one_more room name (some xs) h k = omega arith

some_room : (room : ℕ) (b : Bool) → (room == 0 || b) ≡ false → 0 < room
some_room room b h = ground arith

named_targets-IsAtMost :
    (env : DataEnv) (room : ℕ) (names : List (List ℕ))
    → IsAtMost room (named_targets env room names)
unfolding named_targets
named_targets-IsAtMost env room [] = omega arith
named_targets-IsAtMost env room (name ∷ rest) =
    let later = named_targets env (room - 1) rest in
    if-both (IsAtMost room) (room == 0 || not (supported_name name)) none
      (elim later [ none ↦ none | some atoms ↦ some (env.atom_of_name name ∷ atoms) ]) (λ e. tt)
      (λ e.
        one_more room (env.atom_of_name name) later (some_room room (not (supported_name name)) e)
          (named_targets-IsAtMost env (room - 1) rest))

pub read_targets-IsAtMost :
    (env : DataEnv) (file : Option HostFile) → IsAtMost max_targets (read_targets env file)
unfolding read_targets
read_targets-IsAtMost env none = tt
read_targets-IsAtMost env (some file) =
    let P = IsAtMost max_targets in
    let named = λ (bytes : List ℕ).
      named_targets env max_targets (full_lines (all_lines (until_zero bytes))) in
    let content = elim file.content as (λ o. Option (List ℕ)) [
      | none ↦ none
      | some bytes ↦ named bytes
    ] in
    option-both P file.stat none
      (λ (regular, size). if leb (max_targets * 128) size then none else content) tt
      (λ (regular, size) e.
        if-both P (leb (max_targets * 128) size) none content (λ f. tt)
          (λ f. option-both P file.content none named tt (λ bytes g.
            named_targets-IsAtMost env max_targets (full_lines (all_lines (until_zero bytes))))))

pub then_close-IsStep :
    (s : DataState) (file : Option HostFile) (o : DataOutcome)
    → IsStep s o
    → IsStep s (then_close file o)
unfolding replay
then_close-IsStep s none o h = h
then_close-IsStep s (some f) (u, effects) h = record {
  agrees =
      replay-append effects (close_file f.descriptor ∷ []) (phase_of s.drag) (phase_of u.drag)
        h.agrees;
  bounds = h.bounds;
}

reply_incremental-IsStep :
    (env : DataEnv) (s : DataState) (n : ℕ) → IsStep s (reply_incremental env s n)
unfolding reply_incremental replay
reply_incremental-IsStep env s n =
    let t : Transfer = record (transfer_at s n) { incremental = true } in
    let u = put_transfer s n t in
    let told =
      change_words t.requestor t.property env.atoms.incr (t.size ∷ [])
      ∷ selection_notify (env.reachable t.requestor) t
          (if env.change_succeeds then t.property else 0)
      ∷ [] in
    then-IsStep s (u, told) (λ v. if env.change_succeeds then (v, []) else release v n)
      (put-IsStep s n t told (λ b. transfer_at-IsSized s n b) (record { quiet = λ p. refl }))
      (if-both (IsStep u) env.change_succeeds (u, []) (release u n) (λ e. nothing-IsStep u)
        (λ e. release-IsStep u n))

reply_whole-IsStep : (env : DataEnv) (s : DataState) (n : ℕ) → IsStep s (reply_whole env s n)
unfolding reply_whole replay
reply_whole-IsStep env s n =
    let (sent, success) = send_chunk env s n in
    let answer : DataState → DataOutcome =
      λ u. (u, if (transfer_at u n).used then notify env (transfer_at u n) success else []) in
    let answered = sent |> answer in
    then-IsStep s answered (λ u. end_transfer env u n success)
      (then-IsStep s sent answer (send_chunk-IsStep env s n) (
        quiet-IsStep sent.0 _ (
          if-both IsQuiet (transfer_at sent.0 n).used (notify env (transfer_at sent.0 n) success) []
            (λ e. record { quiet = λ p. refl }) (λ e. record { quiet = λ p. refl }))))
      (end_transfer-IsStep env answered.0 n success)

reply_file-IsStep :
    (env : DataEnv) (s : DataState) (n fd size : ℕ)
    → size ≤ max_bytes
    → IsStep s (reply_file env s n fd size)
unfolding reply_file
reply_file-IsStep env s n fd size h =
    let t : Transfer = record (transfer_at s n) { fd = some fd; size = size } in
    let u = put_transfer s n t in
    let kept = if ltb chunk_size size then reply_incremental env u n else reply_whole env u n in
    let o = if not (env.window_exists t.requestor) then release u n else kept in
    from_put-IsStep s n t o (λ b. h)
      (if-both (IsStep u) (not (env.window_exists t.requestor)) (release u n) kept
        (λ e. release-IsStep u n)
        (λ e.
          if-both (IsStep u) (ltb chunk_size size) (reply_incremental env u n) (reply_whole env u n)
            (λ f. reply_incremental-IsStep env u n) (λ f. reply_whole-IsStep env u n)))

file_size-le : (file : HostFile) (size : ℕ) → file_size file ≡ some size → size ≤ max_bytes
unfolding file_size
file_size-le file size =
    let P = λ (o : Option ℕ). o ≡ some size → size ≤ max_bytes in
    option-both P file.stat none
      (λ (regular, n). if not regular || ltb max_bytes n then none else some n) (λ h. absurd cc)
      (λ (regular, n) e.
        if-both P (not regular || ltb max_bytes n) none (some n) (λ f. λ h. absurd cc)
          (λ f. λ h.
            let same : n ≡ size = ap (λ (o : Option ℕ). elim o [ none ↦ 0 | some m ↦ m ]) h in
            ground arith))

reply_to-IsStep :
    (env : DataEnv) (s : DataState) (n : ℕ) (file : Option HostFile)
    → IsStep s (reply_to env s n file)
unfolding reply_to
reply_to-IsStep env s n none = fail-IsStep env s n
reply_to-IsStep env s n (some file) =
    option-both (IsStep s) (file_size file) _ _
      (then_close-IsStep s (some file) (fail env s n) (fail-IsStep env s n))
      (λ size e. reply_file-IsStep env s n file.descriptor size (file_size-le file size e))

pub host_replied-IsStep :
    (env : DataEnv) (s : DataState) (channel : Bool) (event : HostEvent) (file : Option HostFile)
    → IsStep s (host_replied env s channel event file)
unfolding host_replied
host_replied-IsStep env s channel event file =
    option-both (IsStep s) (replied_transfer channel event.serial event.offer s.transfers) _ _
      (then_close-IsStep s file (s, []) (nothing-IsStep s)) (λ n e. reply_to-IsStep env s n file)
