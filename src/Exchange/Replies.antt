-- ===== src/Exchange/Replies.antt =====
-- What comes with the host's commands: the list of targets of an offer, and the file of a reply.
use magicdesk_x.Prelude.{
  ℕ, ◌-◌, ◌*◌, Bool, true, not, ◌&&◌, ◌||◌, Option, none, some, List, [], ◌∷◌, ◌++◌, ltb, leb, ◌==◌,
  if◌then◌else◌,
}
use magicdesk_x.Prelude.Int.{ℤ}
use magicdesk_x.Exchange.{
  max_bytes, max_targets, chunk_size, Offer, Transfer, DataState, change_words, close_file,
  DataOutcome, ◌|>◌, DataEnv, next_place,
}
use magicdesk_x.Exchange.Transfers.{
  transfer_at, put_transfer, notify, release, end_transfer, fail, supported_name,
}
use magicdesk_x.Exchange.Chunks.{send_chunk}

-- What came with a command: the descriptor, whether it is a regular file and its size, and its bytes.
pub record HostFile : Type 0 where
  pub descriptor : ℕ
  pub stat : Option (Bool × ℕ)
  pub content : Option (List ℕ)

pub data HostOperation : Type 0 where
  host_enable host_offer host_read host_reply host_enter host_move host_leave : HostOperation
  host_drop host_finish host_cancel host_begin host_other : HostOperation

-- `LorieDataEvent`; the name of a type is the atom for it, if it ends in its array.
pub record HostEvent : Type 0 where
  pub operation : HostOperation
  pub channel : ℕ
  pub serial : ℕ
  pub offer : ℕ
  pub output : ℕ
  pub window : ℕ
  pub x : ℤ
  pub y : ℤ
  pub target : Option ℕ

-- The bytes before the first zero.
abbrev pub until_zero : List ℕ → List ℕ
until_zero [] = []
until_zero (b ∷ rest) = if b == 0 then [] else b ∷ until_zero rest

abbrev pub grow_first : ℕ → List (List ℕ) → List (List ℕ)
grow_first b [] = (b ∷ []) ∷ []
grow_first b (line ∷ rest) = (b ∷ line) ∷ rest

-- The lines of a text, the empty ones too.
unfoldable pub all_lines : List ℕ → List (List ℕ)
all_lines [] = [] ∷ []
all_lines (b ∷ rest) =
    let later = all_lines rest in if b == 10 then [] ∷ later else grow_first b later

-- What `strtok_r` finds: the lines that have a byte.
unfoldable pub full_lines : List (List ℕ) → List (List ℕ)
full_lines [] = []
full_lines ([] ∷ rest) = full_lines rest
full_lines ((b ∷ line) ∷ rest) = (b ∷ line) ∷ full_lines rest

-- The atoms of the names, if there is room for all and all are supported.
unfoldable pub named_targets : DataEnv → ℕ → List (List ℕ) → Option (List ℕ)
unfolding supported_name
named_targets env room [] = some []
named_targets env room (name ∷ rest) =
    let later = named_targets env (room - 1) rest in
    if room == 0 || not (supported_name name)
    then none
    else elim later [ none ↦ none | some atoms ↦ some (env.atom_of_name name ∷ atoms) ]

-- `readTargets`.
unfoldable pub read_targets : DataEnv → Option HostFile → Option (List ℕ)
unfolding all_lines full_lines named_targets
read_targets env none = none
read_targets env (some file) = elim file.stat [
  | none ↦ none
  | some (regular, size) ↦ if leb (max_targets * 128) size then none else elim file.content [
    | none ↦ none
    | some bytes ↦ named_targets env max_targets (full_lines (all_lines (until_zero bytes)))
  ]
]

-- The offer that the host makes.
abbrev pub host_offer_of : DataEnv → DataState → ℕ → List ℕ → Offer
host_offer_of env s generation targets = record {
  generation = generation;
  owner = s.bridge;
  time = env.time;
  targets = targets;
  local = true;
}

-- The outgoing transfer that a reply is for.
unfoldable pub replied_transfer : Bool → ℕ → ℕ → List Transfer → Option ℕ
replied_transfer channel serial generation [] = none
replied_transfer channel serial generation (t ∷ rest) =
    let later = next_place (replied_transfer channel serial generation rest) in
    if t.used
      && (not t.incoming
          && (t.serial == serial
              && (t.generation == generation && (if t.channel then channel else not channel))))
    then some 0
    else later

-- The size of a file that can be sent.
unfoldable pub file_size : HostFile → Option ℕ
file_size file = elim file.stat [
  | none ↦ none
  | some (regular, size) ↦ if not regular || ltb max_bytes size then none else some size
]

-- A large file: its size is told and the requestor asks for the chunks.
unfoldable pub reply_incremental : DataEnv → DataState → ℕ → DataOutcome
unfolding release
reply_incremental env s n =
    let t : Transfer = record (transfer_at s n) { incremental = true } in
    (
      put_transfer s n t,
      change_words t.requestor t.property env.atoms.incr (t.size ∷ [])
          ∷ notify env t env.change_succeeds,
    )
    |> (λ u. if env.change_succeeds then (u, []) else release u n)

-- A small one: the only chunk, unless that has ended the transfer, and the answer.
unfoldable pub reply_whole : DataEnv → DataState → ℕ → DataOutcome
unfolding send_chunk end_transfer
reply_whole env s n =
    let t = transfer_at s n in
    let (sent, success) = send_chunk env s n in
    sent
    |> (λ u. (u, if (transfer_at u n).used then notify env (transfer_at u n) success else []))
    |> (λ u. end_transfer env u n success)

-- The file of a reply belongs to the transfer.
unfoldable pub reply_file : DataEnv → DataState → ℕ → ℕ → ℕ → DataOutcome
unfolding release reply_incremental reply_whole
reply_file env s n fd size =
    let t : Transfer = record (transfer_at s n) { fd = some fd; size = size } in
    let u = put_transfer s n t in
    if not (env.window_exists t.requestor)
    then release u n
    else if ltb chunk_size size
    then reply_incremental env u n
    else reply_whole env u n

-- Each path closes the descriptor that it does not keep.
abbrev pub then_close : Option HostFile → DataOutcome → DataOutcome
then_close none o = o
then_close (some file) (s, effects) = (s, effects ++ (close_file file.descriptor ∷ []))

-- The reply for a transfer that waits for it.
unfoldable pub reply_to : DataEnv → DataState → ℕ → Option HostFile → DataOutcome
unfolding file_size fail reply_file
reply_to env s n none = fail env s n
reply_to env s n (some file) = elim (file_size file) [
  | none ↦ then_close (some file) (fail env s n)
  | some size ↦ reply_file env s n file.descriptor size
]

-- LORIE_DATA_REPLY.
unfoldable pub host_replied : DataEnv → DataState → Bool → HostEvent → Option HostFile → DataOutcome
unfolding replied_transfer reply_to
host_replied env s channel event file =
    elim (replied_transfer channel event.serial event.offer s.transfers) [
      | none ↦ then_close file (s, [])
      | some n ↦ reply_to env s n file
    ]
