-- ===== src/Exchange/Chunks.antt =====
-- What is moved through a property: what an owner has left in it (`receive`), the chunks of a file for
-- a requestor (`sendChunk`), and the work that a change of a property queues.
use magicdesk_x.Prelude.{
  ℕ, ◌+◌, ◌-◌, ◌%◌, ◌^◌, min, Bool, true, false, not, ◌&&◌, ◌||◌, Option, none, some, List, [], ◌∷◌,
  ◌++◌, ltb, ◌==◌, if◌then◌else◌, length, get_or,
}
use magicdesk_x.Exchange.{
  max_bytes, max_targets, chunk_size, Offer, Transfer, DataState, offer_of, with_offer,
  reply_operation, DataEffect, change_chunk, write_file, delete_property, queue_work, DataOutcome,
  ◌|>◌, PropertyValue, DataEnv, emit, next_place,
}
use magicdesk_x.Exchange.Transfers.{
  transfer_at, put_transfer, release, end_transfer, fail, bytes_file, supported_name,
  publish_targets,
}

-- The valid atoms with a supported name, as many as there is room for.
unfoldable pub kept_targets : DataEnv → ℕ → List ℕ → List ℕ
unfolding supported_name
kept_targets env room [] = []
kept_targets env room (atom ∷ rest) =
    let later = kept_targets env (room - 1) rest in
    let skipped = kept_targets env room rest in
    if room == 0
    then []
    else if env.valid_atom atom && supported_name (env.name_of_atom atom)
    then atom ∷ later
    else skipped

-- `receive` of a list of targets.
unfoldable pub receive_targets : DataEnv → DataState → ℕ → PropertyValue → DataOutcome
unfolding kept_targets publish_targets release fail
receive_targets env s n prop =
    let channel = (transfer_at s n).channel in
    let offer : Offer = record (offer_of s channel) {
      targets = kept_targets env max_targets prop.items;
    } in
    if not (prop.kind == env.atoms.atom_kind)
      || (not (prop.format == 32) || ltb 4096 (length prop.items))
    then fail env s n
    else publish_targets env (with_offer s channel offer) channel |> (λ u. release u n)

-- The start of an incremental transfer: the owner says how large it will be.
unfoldable pub receive_incremental : DataEnv → DataState → ℕ → PropertyValue → DataOutcome
unfolding bytes_file fail
receive_incremental env s n prop =
    let t = transfer_at s n in
    let (fd, effects) = bytes_file env [] in
    let started : Transfer = record t { fd = fd; incremental = true } in
    if t.listing || ltb max_bytes (get_or prop.items 0 0) then fail env s n else elim fd [
      | none ↦ (s, effects) |> (λ u. fail env (put_transfer u n (record t { fd = none })) n)
      | some file ↦
          (put_transfer s n started, effects ++ (delete_property t.requestor t.property ∷ []))
    ]

-- The file of a transfer, which is made for its first bytes.
abbrev pub transfer_file : DataEnv → Transfer → Option ℕ × List DataEffect
transfer_file env t = elim t.fd [ none ↦ bytes_file env [] | some fd ↦ (some fd, []) ]

-- Bytes are in the file: they are all, or the owner may send more.
unfoldable pub received : DataEnv → DataState → ℕ → ℕ → List ℕ → DataOutcome
unfolding release
received env s n file bytes =
    let t : Transfer = record (transfer_at s n) {
      fd = some file;
      size = (transfer_at s n).size + length bytes;
    } in
    let u = put_transfer s n t in
    let written =
      if length bytes == 0 then [] else write_file file (transfer_at s n).size bytes ∷ [] in
    if not t.incremental || length bytes == 0
    then (
      u,
      written
          ++ emit reply_operation t.channel t.serial t.generation (some t.target) (some file) 0 0 1,
    )
      |> (λ v. release v n)
    else (u, written ++ (delete_property t.requestor t.property ∷ []))

-- `receive` of bytes; the room that is left is a difference of size_t.
unfoldable pub receive_bytes : DataEnv → DataState → ℕ → PropertyValue → DataOutcome
unfolding fail received
receive_bytes env s n prop =
    let t = transfer_at s n in
    let (fd, effects) = transfer_file env t in
    if not (prop.format == 8) || ltb ((max_bytes + 2 ^ 64 - t.size) % 2 ^ 64) (length prop.items)
    then fail env s n
    else elim fd [
      | none ↦ (s, effects) |> (λ u. fail env u n)
      | some file ↦
          if not (length prop.items == 0) && not env.file_io_succeeds
          then (put_transfer s n (record t { fd = some file }), effects) |> (λ u. fail env u n)
          else (s, effects) |> (λ u. received env u n file prop.items)
    ]

abbrev pub is_incremental : DataEnv → PropertyValue → Bool
is_incremental env prop =
    prop.kind == env.atoms.incr && (prop.format == 32 && length prop.items == 1)

-- What the owner has put into the property, if its window is there.
abbrev pub left_property : DataEnv → Transfer → Option PropertyValue
left_property env t =
    if env.window_exists t.requestor then env.property t.requestor t.property else none

-- `receive`.
unfoldable pub receive : DataEnv → DataState → ℕ → Bool → DataOutcome
unfolding fail receive_targets receive_incremental receive_bytes
receive env s n initial =
    let t = transfer_at s n in
    elim (left_property env t) [
      | none ↦ fail env s n
      | some prop ↦
          if not (t.generation == (offer_of s t.channel).generation)
          then fail env s n
          else if initial && is_incremental env prop
          then receive_incremental env s n prop
          else if t.listing
          then receive_targets env s n prop
          else receive_bytes env s n prop
    ]

-- How many bytes the next chunk has; what is left is a difference of size_t.
abbrev pub chunk_length : Transfer → ℕ
chunk_length t = min chunk_size ((t.size + 2 ^ 64 - t.offset) % 2 ^ 64)

-- The chunk is read and the property is changed.
unfoldable pub chunk_sent : DataEnv → DataState → ℕ → DataOutcome
unfolding end_transfer
chunk_sent env s n =
    let t = transfer_at s n in
    let u = put_transfer s n (record t { offset = t.offset + chunk_length t }) in
    let told = change_chunk t.requestor t.property t.target t.offset (chunk_length t) ∷ [] in
    if t.incremental && (not env.change_succeeds || chunk_length t == 0)
    then (u, told) |> (λ v. end_transfer env v n env.change_succeeds)
    else (u, told)

-- `sendChunk`: what happens, and what it returns.
unfoldable pub send_chunk : DataEnv → DataState → ℕ → DataOutcome × Bool
unfolding end_transfer fail chunk_sent
send_chunk env s n =
    let t = transfer_at s n in
    if not (env.window_exists t.requestor)
    then (end_transfer env s n false, false)
    else if not (chunk_length t == 0) && not env.file_io_succeeds
    then (fail env s n, false)
    else (chunk_sent env s n, env.change_succeeds)

-- `propertyWork` for the transfer that had the ticket when the work was queued.
unfoldable pub property_work : DataEnv → DataState → ℕ → ℕ → DataOutcome
unfolding receive send_chunk
property_work env s n ticket =
    let t = transfer_at s n in
    let u = put_transfer s n (record t { queued = false }) in
    if s.enabled && (t.used && t.ticket == ticket)
    then (if t.incoming then receive env u n false else (send_chunk env u n).0)
    else (s, [])

-- The incremental transfer that a property belongs to.
unfoldable pub property_transfer : ℕ → ℕ → List Transfer → Option ℕ
property_transfer window property [] = none
property_transfer window property (t ∷ rest) =
    let later = next_place (property_transfer window property rest) in
    if t.used && (t.incremental && (t.requestor == window && t.property == property))
    then some 0
    else later

-- `propertyChanged`, for a new value or for a deletion.
unfoldable pub property_changed : DataEnv → DataState → ℕ → ℕ → Bool → DataOutcome
unfolding property_transfer
property_changed env s window property deleted =
    elim (property_transfer window property s.transfers) [
      | none ↦ (s, [])
      | some n ↦
          let t = transfer_at s n in
          if s.enabled && (not t.queued && (if t.incoming then not deleted else deleted))
          then (
            put_transfer s n (record t { queued = env.work_queued }),
            if env.work_queued then queue_work n t.ticket ∷ [] else [],
          )
          else (s, [])
    ]
