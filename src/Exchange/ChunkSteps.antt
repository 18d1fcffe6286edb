-- ===== src/Exchange/ChunkSteps.antt =====
-- The same of what is moved through properties; here the sizes count.
use magicdesk_x.Prelude.{
  option-both, ℕ, ◌+◌, ◌-◌, ◌%◌, ◌^◌, ◌≤◌, ◌≡◌, refl, Bool, true, false, not, ◌&&◌, ◌||◌, Option,
  none, some, List, [], ◌∷◌, arith, ltb, ◌==◌, if◌then◌else◌, if-both, length,
}
use magicdesk_x.Exchange.{
  max_bytes, max_targets, Offer, Transfer, DataState, offer_of, with_offer, DataEffect,
  change_chunk, write_file, delete_property, queue_work, reply_operation, emit, DataOutcome, ◌|>◌,
  PropertyValue, DataEnv,
}
use magicdesk_x.Exchange.Transfers.{
  transfer_at, put_transfer, release, end_transfer, fail, bytes_file, publish_targets,
  supported_name,
}
use magicdesk_x.Exchange.Chunks.{
  kept_targets, receive_targets, receive_incremental, transfer_file, received, receive_bytes,
  is_incremental, left_property, receive, chunk_length, chunk_sent, send_chunk, property_work,
  property_transfer, property_changed,
}
use magicdesk_x.Exchange.Protocol.{replay}
use magicdesk_x.Exchange.Steps.{
  IsSized, IsBounded, IsStep, then-IsStep, from-IsStep, from_put-IsStep, put-IsStep, quiet-IsStep,
  IsQuiet, append-IsQuiet, transfer_at-IsSized, release-IsStep, end_transfer-IsStep, fail-IsStep,
}
use magicdesk_x.Exchange.RequestSteps.{bytes_file-IsQuiet, publish_targets-IsStep}

kept_targets-le :
    (env : DataEnv) (room : ℕ) (items : List ℕ) → length (kept_targets env room items) ≤ room
unfolding kept_targets
kept_targets-le env room [] = omega arith
kept_targets-le env room (atom ∷ rest) =
    let P = λ (xs : List ℕ). length xs ≤ room in
    if-both P (room == 0) _ _ (λ e. omega arith)
      (λ e.
        if-both P (env.valid_atom atom && supported_name (env.name_of_atom atom)) _ _
          (λ f. let l = kept_targets-le env (room - 1) rest in ground arith)
          (λ f. kept_targets-le env room rest))

-- A difference of size_t that is not negative.
size_difference : (a b : ℕ) → b ≤ a → a ≤ max_bytes → (a + 2 ^ 64 - b) % 2 ^ 64 ≡ a - b
size_difference a b h k =
    let w : a + 2 ^ 64 - b ≡ 2 ^ 64 + (a - b) = omega arith in rw w (omega arith)

pub with_offer-IsStep :
    (s : DataState) (channel : Bool) (offer : Offer) (o : DataOutcome)
    → length offer.targets ≤ max_targets
    → IsStep (with_offer s channel offer) o
    → IsStep s o
with_offer-IsStep s false offer o h k =
    from-IsStep s (with_offer s false offer) o refl (λ (a, (b, c)). (a, (h, c))) k
with_offer-IsStep s true offer o h k =
    from-IsStep s (with_offer s true offer) o refl (λ (a, (b, c)). (a, (b, h))) k

receive_targets-IsStep :
    (env : DataEnv) (s : DataState) (n : ℕ) (prop : PropertyValue)
    → IsStep s (receive_targets env s n prop)
unfolding receive_targets
receive_targets-IsStep env s n prop =
    let channel = (transfer_at s n).channel in
    let offer : Offer = record (offer_of s channel) {
      targets = kept_targets env max_targets prop.items;
    } in
    let u = with_offer s channel offer in
    if-both (IsStep s) _ _ _ (λ e. fail-IsStep env s n)
      (λ e. with_offer-IsStep s channel offer _ (kept_targets-le env max_targets prop.items) (
        then-IsStep u (publish_targets env u channel) (λ v. release v n)
          (publish_targets-IsStep env u channel)
          (release-IsStep (publish_targets env u channel).0 n)))

receive_incremental-IsStep :
    (env : DataEnv) (s : DataState) (n : ℕ) (prop : PropertyValue)
    → IsStep s (receive_incremental env s n prop)
unfolding receive_incremental replay
receive_incremental-IsStep env s n prop =
    let t = transfer_at s n in
    let (fd, effects) = bytes_file env [] in
    let sized = λ (b : IsBounded s). transfer_at-IsSized s n b in
    let made = bytes_file-IsQuiet env [] in
    if-both (IsStep s) _ _ _ (λ e. fail-IsStep env s n)
      (λ e.
        option-both (IsStep s) fd _ _
          (then-IsStep s (s, effects) (λ u. fail env (put_transfer u n (record t { fd = none })) n)
            (quiet-IsStep s effects made)
            (from_put-IsStep s n (record t { fd = none }) _ sized
              (fail-IsStep env (put_transfer s n (record t { fd = none })) n)))
          (λ file f.
            put-IsStep s n (record t { fd = fd; incremental = true }) _ sized
              (append-IsQuiet effects (delete_property t.requestor t.property ∷ []) made
                (record { quiet = λ p. refl }))))

transfer_file-IsQuiet : (env : DataEnv) (t : Transfer) → IsQuiet (transfer_file env t).1
unfolding replay
transfer_file-IsQuiet env t =
    option-both (λ (o : Option ℕ × List DataEffect). IsQuiet o.1) t.fd (bytes_file env [])
      (λ fd. (some fd, [])) (bytes_file-IsQuiet env []) (λ fd e. record { quiet = λ p. refl })

written-IsQuiet :
    (file size : ℕ) (bytes : List ℕ)
    → IsQuiet (if length bytes == 0 then [] else write_file file size bytes ∷ [])
unfolding replay
written-IsQuiet file size bytes =
    if-both IsQuiet (length bytes == 0) [] (write_file file size bytes ∷ [])
      (λ e. record { quiet = λ p. refl }) (λ e. record { quiet = λ p. refl })

received-IsStep :
    (env : DataEnv) (s : DataState) (n file : ℕ) (bytes : List ℕ)
    → (IsBounded s → (transfer_at s n).size + length bytes ≤ max_bytes)
    → IsStep s (received env s n file bytes)
unfolding received replay
received-IsStep env s n file bytes fits =
    let t : Transfer = record (transfer_at s n) {
      fd = some file;
      size = (transfer_at s n).size + length bytes;
    } in
    let u = put_transfer s n t in
    let sized : IsBounded s → IsSized t = λ b. fits b in
    let written = written-IsQuiet file (transfer_at s n).size bytes in
    if-both (IsStep s) (not t.incremental || length bytes == 0) _ _
      (λ e.
        then-IsStep s (u, _) (λ v. release v n)
          (put-IsStep s n t _ sized (
            append-IsQuiet _
              (emit reply_operation t.channel t.serial t.generation (some t.target) (some file) 0 0
                1)
              written (record { quiet = λ p. refl })))
          (release-IsStep u n))
      (λ e. put-IsStep s n t _ sized (
        append-IsQuiet _ (delete_property t.requestor t.property ∷ []) written
          (record { quiet = λ p. refl })))

room_left :
    (size n : ℕ)
    → size ≤ max_bytes
    → ltb ((max_bytes + 2 ^ 64 - size) % 2 ^ 64) n ≡ false
    → size + n ≤ max_bytes
room_left size n h e =
    let d = size_difference max_bytes size h (omega arith) in
    let f : ltb (max_bytes - size) n ≡ false = rw d at e in ground arith

or_false : (a b : Bool) → (a || b) ≡ false → (a ≡ false) × (b ≡ false)
or_false true b h = absurd cc
or_false false b h = (refl, h)

receive_bytes-IsStep :
    (env : DataEnv) (s : DataState) (n : ℕ) (prop : PropertyValue)
    → IsStep s (receive_bytes env s n prop)
unfolding receive_bytes
receive_bytes-IsStep env s n prop =
    let t = transfer_at s n in
    let (fd, effects) = transfer_file env t in
    let made = transfer_file-IsQuiet env t in
    let first = quiet-IsStep s effects made in
    let sized = λ (b : IsBounded s). transfer_at-IsSized s n b in
    let room = ltb ((max_bytes + 2 ^ 64 - t.size) % 2 ^ 64) (length prop.items) in
    if-both (IsStep s) (not (prop.format == 8) || room) _ _ (λ e. fail-IsStep env s n)
      (λ e.
        let (g, left) = or_false (not (prop.format == 8)) room e in
        option-both (IsStep s) fd _ _
          (then-IsStep s (s, effects) (λ u. fail env u n) first (fail-IsStep env s n))
          (λ file f.
            let v : Transfer = record t { fd = some file } in
            if-both (IsStep s) (not (length prop.items == 0) && not env.file_io_succeeds)
              ((put_transfer s n v, effects) |> (λ u. fail env u n))
              ((s, effects) |> (λ u. received env u n file prop.items))
              (λ g.
                then-IsStep s (put_transfer s n v, effects) (λ u. fail env u n)
                  (put-IsStep s n v effects sized made) (fail-IsStep env (put_transfer s n v) n))
              (λ g.
                then-IsStep s (s, effects) (λ u. received env u n file prop.items) first
                  (received-IsStep env s n file prop.items
                    (λ b. room_left t.size (length prop.items) (transfer_at-IsSized s n b) left)))))

pub receive-IsStep :
    (env : DataEnv) (s : DataState) (n : ℕ) (initial : Bool) → IsStep s (receive env s n initial)
unfolding receive
receive-IsStep env s n initial =
    let t = transfer_at s n in
    option-both (IsStep s) (left_property env t) _ _ (fail-IsStep env s n) (λ prop e.
      if-both (IsStep s) (not (t.generation == (offer_of s t.channel).generation)) (fail env s n)
        (if initial && is_incremental env prop
          then receive_incremental env s n prop
          else if t.listing
          then receive_targets env s n prop
          else receive_bytes env s n prop)
        (λ f. fail-IsStep env s n)
        (λ f.
          if-both (IsStep s) (initial && is_incremental env prop) _ _
            (λ g. receive_incremental-IsStep env s n prop)
            (λ g.
              if-both (IsStep s) t.listing _ _ (λ h. receive_targets-IsStep env s n prop)
                (λ h. receive_bytes-IsStep env s n prop))))

chunk_sent-IsStep : (env : DataEnv) (s : DataState) (n : ℕ) → IsStep s (chunk_sent env s n)
unfolding chunk_sent replay
chunk_sent-IsStep env s n =
    let t = transfer_at s n in
    let v : Transfer = record t { offset = t.offset + chunk_length t } in
    let told = change_chunk t.requestor t.property t.target t.offset (chunk_length t) ∷ [] in
    let sized : IsBounded s → IsSized v = λ b. transfer_at-IsSized s n b in
    let sent = put-IsStep s n v told sized (record { quiet = λ p. refl }) in
    if-both (IsStep s) (t.incremental && (not env.change_succeeds || chunk_length t == 0)) _ _
      (λ e.
        then-IsStep s (put_transfer s n v, told) (λ u. end_transfer env u n env.change_succeeds)
          sent (end_transfer-IsStep env (put_transfer s n v) n env.change_succeeds))
      (λ e. sent)

pub send_chunk-IsStep : (env : DataEnv) (s : DataState) (n : ℕ) → IsStep s (send_chunk env s n).0
unfolding send_chunk
send_chunk-IsStep env s n =
    let t = transfer_at s n in
    let P = λ (o : DataOutcome × Bool). IsStep s o.0 in
    if-both P (not (env.window_exists t.requestor)) _ _ (λ e. end_transfer-IsStep env s n false)
      (λ e.
        if-both P (not (chunk_length t == 0) && not env.file_io_succeeds) (fail env s n, false)
          (chunk_sent env s n, env.change_succeeds) (λ f. fail-IsStep env s n)
          (λ f. chunk_sent-IsStep env s n))

pub property_work-IsStep :
    (env : DataEnv) (s : DataState) (n ticket : ℕ) → IsStep s (property_work env s n ticket)
unfolding property_work replay
property_work-IsStep env s n ticket =
    let t = transfer_at s n in
    let v : Transfer = record t { queued = false } in
    let u = put_transfer s n v in
    if-both (IsStep s) (s.enabled && (t.used && t.ticket == ticket)) _ _
      (λ e.
        from_put-IsStep s n v (if t.incoming then receive env u n false else (send_chunk env u n).0)
          (λ b. transfer_at-IsSized s n b)
          (if-both (IsStep u) t.incoming (receive env u n false) (send_chunk env u n).0
            (λ f. receive-IsStep env u n false) (λ f. send_chunk-IsStep env u n)))
      (λ e. quiet-IsStep s [] (record { quiet = λ p. refl }))

pub property_changed-IsStep :
    (env : DataEnv) (s : DataState) (window property : ℕ) (deleted : Bool)
    → IsStep s (property_changed env s window property deleted)
unfolding property_changed replay
property_changed-IsStep env s window property deleted =
    let nothing = quiet-IsStep s [] (record { quiet = λ p. refl }) in
    option-both (IsStep s) (property_transfer window property s.transfers) _ _ nothing (λ n e.
      let t = transfer_at s n in
      let effects = if env.work_queued then queue_work n t.ticket ∷ [] else [] in
      let v : Transfer = record t { queued = env.work_queued } in
      if-both (IsStep s)
        (s.enabled && (not t.queued && (if t.incoming then not deleted else deleted)))
        (put_transfer s n v, effects) (s, [])
        (λ f.
          put-IsStep s n v effects (λ b. transfer_at-IsSized s n b)
            (if-both IsQuiet env.work_queued (queue_work n t.ticket ∷ []) []
              (λ g. record { quiet = λ p. refl }) (λ g. record { quiet = λ p. refl })))
        (λ f. nothing))
