-- ===== src/Exchange/Transfers.antt =====
-- The transfers of a selection, in the place they have: their release, failure and deadline, the
-- requests to an owner, what an owner's property gives, and the chunks sent to a requestor. The
-- property callback inside of `sendChunk` is without effect in the source, so it is left out.
use magicdesk_x.Prelude.{
  ℕ, zero, suc, ◌-◌, ◌*◌, Bool, true, false, not, ◌&&◌, ◌||◌, Option, none, some, List, [], ◌∷◌,
  ◌++◌, ltb, ◌==◌, if◌then◌else◌, length, get_or, set,
}
use magicdesk_x.Exchange.{
  max_targets, Offer, Transfer, DataState, offer_of, next_u32, reply_operation, offer_operation,
  DataEffect, change_chunk, selection_notify, selection_request, write_file, free_window,
  close_file, DataOutcome, ◌|>◌, DataEnv, emit, next_place,
}
use magicdesk_x.Exchange.Drag.{selection_finished}

abbrev pub no_transfer : Transfer
no_transfer = record {
  used = false;
  incoming = false;
  incremental = false;
  listing = false;
  serial = 0;
  generation = 0;
  ticket = 0;
  queued = false;
  channel = false;
  fd = none;
  requestor = 0;
  target = 0;
  property = 0;
  time = 0;
  size = 0;
  offset = 0;
  timer = false;
}

abbrev pub transfer_at : DataState → ℕ → Transfer
transfer_at s n = get_or s.transfers n no_transfer

abbrev pub put_transfer : DataState → ℕ → Transfer → DataState
put_transfer s n t = record s { transfers = set s.transfers n t }

abbrev pub close_some : Option ℕ → List DataEffect
close_some none = []
close_some (some fd) = close_file fd ∷ []

-- `notify`.
abbrev pub notify : DataEnv → Transfer → Bool → List DataEffect
notify env t success =
    selection_notify (env.reachable t.requestor) t (if success then t.property else 0) ∷ []

abbrev pub released_transfer : Transfer → Transfer
released_transfer t = record t { used = false; timer = false; fd = none }

-- What the release of a transfer gives back.
abbrev pub released_effects : Transfer → List DataEffect
released_effects t =
    close_some t.fd
    ++ (if t.incoming && not (t.requestor == 0) then free_window t.requestor ∷ [] else [])

-- `release`.
unfoldable pub release : DataState → ℕ → DataOutcome
release s n =
    let t = transfer_at s n in
    if t.used then (put_transfer s n (released_transfer t), released_effects t) else (s, [])

-- What a failure tells the other side.
abbrev pub failure_told : DataEnv → Transfer → List DataEffect
failure_told env t =
    if t.incoming
    then (if t.listing
        then []
        else emit reply_operation t.channel t.serial t.generation (some t.target) none 0 0 0)
    else if not t.incremental
    then notify env t false
    else if env.window_exists t.requestor
    then change_chunk t.requestor t.property t.target t.offset 0 ∷ []
    else []

-- The end of a transfer: `release` and `selectionFinished`.
unfoldable pub end_transfer : DataEnv → DataState → ℕ → Bool → DataOutcome
unfolding release selection_finished
end_transfer env s n success =
    release s n |> (λ u. selection_finished env u (transfer_at s n) success)

-- `fail`.
unfoldable pub fail : DataEnv → DataState → ℕ → DataOutcome
unfolding end_transfer
fail env s n = (s, failure_told env (transfer_at s n)) |> (λ u. end_transfer env u n false)

-- `expired`.
unfoldable pub expired : DataEnv → DataState → ℕ → DataOutcome
unfolding fail
expired env s n = fail env (put_transfer s n (record (transfer_at s n) { timer = false })) n

unfoldable pub free_place : List Transfer → Option ℕ
free_place [] = none
free_place (t ∷ rest) = let later = next_place (free_place rest) in if t.used then later else some 0

-- The fields that `allocate` sets.
abbrev pub fresh_transfer : Bool → Bool → Bool → ℕ → ℕ → ℕ → Transfer
fresh_transfer timer incoming channel serial generation ticket = record no_transfer {
  used = true;
  incoming = incoming;
  channel = channel;
  serial = serial;
  generation = generation;
  ticket = ticket;
  timer = timer;
}

-- `allocate`: the state with the transfer, and its place.
unfoldable pub allocate : DataEnv → DataState → Bool → Bool → ℕ → ℕ → Option (DataState × ℕ)
unfolding free_place
allocate env s incoming channel serial generation = elim (free_place s.transfers) [
  | none ↦ none
  | some n ↦
      let ticket = next_u32 s.transfer_sequence in
      some (
        put_transfer (record s { transfer_sequence = ticket }) n
            (fresh_transfer env.timer_set incoming channel serial generation ticket),
        n,
      )
]

-- `bytesFile`.
unfoldable pub bytes_file : DataEnv → List ℕ → Option ℕ × List DataEffect
bytes_file env bytes = elim env.new_file [
  | none ↦ (none, [])
  | some fd ↦
      if not (length bytes == 0) && not env.file_io_succeeds
      then (none, close_file fd ∷ [])
      else (some fd, write_file fd 0 bytes ∷ [])
]

abbrev pub same_bytes : List ℕ → List ℕ → Bool
same_bytes [] [] = true
same_bytes [] (b ∷ bs) = false
same_bytes (a ∷ xs) [] = false
same_bytes (a ∷ xs) (b ∷ bs) = a == b && same_bytes xs bs

abbrev pub has_byte : ℕ → List ℕ → Bool
has_byte b [] = false
has_byte b (a ∷ rest) = a == b || has_byte b rest

-- `supportedName`: a type with a slash, UTF8_STRING, STRING or TEXT.
unfoldable pub supported_name : List ℕ → Bool
supported_name name =
    ltb (length name) 128
    && (has_byte 47 name
        || (same_bytes name (85 ∷ 84 ∷ 70 ∷ 56 ∷ 95 ∷ 83 ∷ 84 ∷ 82 ∷ 73 ∷ 78 ∷ 71 ∷ [])
            || (same_bytes name (83 ∷ 84 ∷ 82 ∷ 73 ∷ 78 ∷ 71 ∷ [])
                || same_bytes name (84 ∷ 69 ∷ 88 ∷ 84 ∷ []))))

abbrev pub take : ℕ → List ℕ → List ℕ
take zero xs = []
take (suc n) [] = []
take (suc n) (x ∷ xs) = x ∷ take n xs

-- What `snprintf` leaves of a text in the room that is left: its last byte is for the zero.
unfoldable pub printed : ℕ → List ℕ → List ℕ
printed room text = if ltb (length text) room then text else take (room - 1) text ++ (0 ∷ [])

-- The supported names, one a line, in a buffer of which some room is left.
unfoldable pub target_names : DataEnv → ℕ → List ℕ → List ℕ
unfolding supported_name printed
target_names env room [] = []
target_names env room (atom ∷ rest) =
    let line = env.name_of_atom atom ++ (10 ∷ []) in
    let later = target_names env (room - length line) rest in
    let skipped = target_names env room rest in
    if supported_name (env.name_of_atom atom) then printed room line ++ later else skipped

-- `publishTargets`.
unfoldable pub publish_targets : DataEnv → DataState → Bool → DataOutcome
unfolding bytes_file target_names
publish_targets env s channel =
    let offer = offer_of s channel in
    let (fd, effects) = bytes_file env (target_names env (max_targets * 128) offer.targets) in
    (
      s,
      effects
          ++ emit offer_operation channel 0 offer.generation none fd
              (if channel then s.pointer_output else 0) offer.owner 0
          ++ close_some fd,
    )

-- The reply to a request that cannot be made.
abbrev pub request_refused : DataState → Bool → ℕ → ℕ → ℕ → Bool → DataOutcome
request_refused s channel serial generation target listing = (
  s,
  if listing then [] else emit reply_operation channel serial generation (some target) none 0 0 0,
)

-- The window of the selection's owner, if it is the offer's and can be asked.
abbrev pub asked_owner : DataEnv → Offer → Bool → ℕ → Option ℕ
asked_owner env offer channel generation = elim (env.selection_owner channel) [
  | none ↦ none
  | some (window, client) ↦
      if offer.local
        || (not (offer.generation == generation)
            || (not client || (not (window == offer.owner) || window == 0)))
      then none
      else some window
]

-- The transfer of a request has its place.
unfoldable pub requested : DataEnv → DataState → ℕ → ℕ → ℕ → Bool → DataOutcome
unfolding fail
requested env s n owner target listing =
    let t : Transfer = record (transfer_at s n) {
      target = target;
      listing = listing;
      property = env.atoms.data_property;
      requestor = env.new_window;
    } in
    let u = put_transfer s n t in
    if t.requestor == 0
    then fail env u n
    else (u, selection_request owner t.requestor t.channel target t.property ∷ [])

-- `request`.
unfoldable pub request : DataEnv → DataState → Bool → ℕ → ℕ → ℕ → Bool → DataOutcome
unfolding allocate requested
request env s channel serial generation target listing =
    elim (asked_owner env (offer_of s channel) channel generation) [
      | none ↦ request_refused s channel serial generation target listing
      | some owner ↦ elim (allocate env s true channel serial generation) [
        | none ↦ request_refused s channel serial generation target listing
        | some (u, n) ↦ requested env u n owner target listing
      ]
    ]
