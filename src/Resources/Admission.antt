-- ===== src/Resources/Admission.antt =====
-- Connections that wait for their first byte in resource_channel.c. `MAXCLIENTS` of the X server is an
-- argument, and so is what AddAuthenticatedClientOnOpenFD returns, which takes the connection over.
use magicdesk_x.Prelude.{
  ℕ, zero, suc, ◌+◌, ◌-◌, Bool, false, not, ◌&&◌, ◌||◌, Option, none, some, List, [], ◌∷◌, ◌++◌,
  leb, ◌==◌, if◌then◌else◌,
}
use magicdesk_x.Prelude.Int.{ℤ, pos}
use magicdesk_x.Resources.{
  errno, eintr, eagain, enomem, eproto, Message, ResourceEffect, install_fd, close_fd, hand_over,
  Taken, close_opt, is_zero, receive,
}
use magicdesk_x.Resources.Channel.{ResourceClient, again}

-- The connections that wait, and the counter `admissions`.
pub record Admissions : Type 0 where
  pub waiting : List ℕ
  pub admissions : ℕ

unfoldable pub without : ℕ → List ℕ → List ℕ
without n [] = []
without zero (fd ∷ rest) = rest
without (suc n) (fd ∷ rest) = fd ∷ without n rest

-- The admission at a place leaves without its connection, and with it (`discard_admission`).
unfoldable pub forget : Admissions → ℕ → Admissions
unfolding without
forget s n = record { waiting = without n s.waiting; admissions = s.admissions - 1 }

abbrev pub AdmissionOutcome : Type 0
AdmissionOutcome = Admissions × (Option (ℕ × ResourceClient) × List ResourceEffect)

unfoldable pub discard_admission : Admissions → ℕ → ℕ → AdmissionOutcome
unfolding forget
discard_admission s n fd = (forget s n, (none, close_fd fd ∷ []))

-- `lorieResourcesAccept`; a new admission stands first.
unfoldable pub resources_accept : ℕ → Admissions → ℕ → Bool → Bool → Bool → AdmissionOutcome
unfolding discard_admission
resources_accept max_clients s fd memory timer watch =
    if leb max_clients s.admissions || not memory
    then (s, (none, install_fd fd ∷ (close_fd fd ∷ [])))
    else let t : Admissions = record { waiting = fd ∷ s.waiting; admissions = s.admissions + 1 } in
      if not timer || not watch
      then (forget t 0, (none, install_fd fd ∷ (close_fd fd ∷ [])))
      else (t, (none, install_fd fd ∷ []))

abbrev pub new_client : Option ℕ → ResourceClient
new_client fd = record {
  fd = fd;
  watched = none;
  pending = false;
  ready = false;
  sent = false;
  first = none;
  second = none;
  request = record { id = 0; flags = 0 };
  reply = record { error = pos 0; reserved = 0; size = 0 };
  armed = false;
}

-- What recv with MSG_PEEK gives: a failure, or the first byte, or the end.
pub data Peek : Type 0 where
  peek_failed peeked : ℕ → Peek
  ended : Peek

-- The connection goes to the X server, and the channel, if there is one, to its client.
abbrev pub admitted : Admissions → ℕ → ℕ → Option ℕ → Option ℕ → AdmissionOutcome
admitted s n fd none client = (forget s n, (none, hand_over fd ∷ []))
admitted s n fd (some channel) none = (forget s n, (none, hand_over fd ∷ (close_fd channel ∷ [])))
admitted s n fd (some channel) (some client) =
    (forget s n, (some (client, new_client (some channel)), hand_over fd ∷ []))

abbrev pub with_effects : List ResourceEffect → AdmissionOutcome → AdmissionOutcome
with_effects effects (s, (entry, more)) = (s, (entry, effects ++ more))

-- `error` after the tests of the endpoint that came along.
abbrev pub endpoint_error : Taken → Bool → Bool → ℤ
endpoint_error t seqpacket memory =
    if not (is_zero t.error)
    then t.error
    else if not (t.count == 1) || not seqpacket
    then errno eproto
    else if not memory
    then errno enomem
    else pos 0

-- The branch for LORIE_RESOURCE_HELLO.
unfoldable pub admit_channel :
    Admissions → ℕ → ℕ → Message → Bool → Bool → Option ℕ → AdmissionOutcome
unfolding receive discard_admission
admit_channel s n fd message seqpacket memory client =
    let t = receive 1 message in
    if again t.error
    then (s, (none, t.effects))
    else if not (is_zero (endpoint_error t seqpacket memory))
    then with_effects (t.effects ++ (close_opt t.first ++ close_opt t.second))
        (discard_admission s n fd)
    else with_effects t.effects (admitted s n fd t.first client)

-- `admit`: `R`, `l` and `B` are the first bytes of a resource client and of X11.
unfoldable pub admit :
    Admissions → ℕ → ℕ → Peek → Message → Bool → Bool → Option ℕ → AdmissionOutcome
unfolding admit_channel discard_admission
admit s n fd (peek_failed number) message seqpacket memory client =
    if number == eintr || number == eagain then (s, (none, [])) else discard_admission s n fd
admit s n fd ended message seqpacket memory client = discard_admission s n fd
admit s n fd (peeked byte) message seqpacket memory client =
    if byte == b'R'
    then admit_channel s n fd message seqpacket memory client
    else if not (byte == b'l') && not (byte == b'B')
    then discard_admission s n fd
    else admitted s n fd none client
