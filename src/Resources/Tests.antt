-- ===== src/Resources/Tests.antt =====
-- Runs of resource_channel.c at fixed inputs, and the theorems about it applied to them.
use magicdesk_x.Prelude.{◌+◌, ◌≡◌, refl, true, false, none, some, List, [], ◌∷◌, ◌++◌, arith}
use magicdesk_x.Prelude.Int.{pos}
use magicdesk_x.Resources.{
  errno, etimedout, epipe, rights, Reply, packet, install_fd, hand_over, attend, send_request,
  ResourceEffect,
}
use magicdesk_x.Resources.Channel.{
  ResourceClient, writing, resources_shm, refusal, ResourceEvent, progressed, expired, shm_asked,
  client_step, client_run, sent_bytes,
}
use magicdesk_x.Resources.Taking.{installed, released}
use magicdesk_x.Resources.Ownership.{owns, entry_owns, IsSound}
use magicdesk_x.Resources.Runs.{client_run-Owned}
use magicdesk_x.Resources.Answers.{whole_answer, resources_shm-whole, expired-answers}
use magicdesk_x.Resources.Admission.{Admissions, new_client, peeked}
use magicdesk_x.Resources.Waiting.{
  readable, admission_step, IsCounted, all_held, channel_of, admission_step-Kept,
}

abbrev fresh : ResourceClient
fresh = new_client (some 7)

fresh-IsSound : IsSound fresh
fresh-IsSound = record {
  quiet = λ q. (refl, refl);
  unwatched = λ q. absurd cc;
  answer = λ q. absurd cc;
}

abbrev reply : Reply
reply = record { error = pos 0; reserved = 0; size = 4096 }

-- A request, its reply with descriptors 8 and 9, and the answer.
abbrev served : List ResourceEvent
served =
    shm_asked 5 true true true
    ∷ (progressed (sent_bytes 16) true (packet 16 false (rights (8 ∷ 9 ∷ []) ∷ []) reply)
        ∷ (shm_asked 5 true true true ∷ []))

served_effects :
    (client_run (some fresh) served).1
    ≡ send_request (record { id = 5; flags = 1 })
      ∷ (install_fd 8 ∷ (install_fd 9 ∷ (attend ∷ (hand_over 8 ∷ (hand_over 9 ∷ [])))))
unfolding client_run client_step
served_effects = refl

client_run-Owned_example :
    let (s, effects) = client_run (some fresh) served in
    owns 8 fresh + installed 8 effects ≡ entry_owns 8 s + released 8 effects
client_run-Owned_example = client_run-Owned 8 fresh served fresh-IsSound

-- The request and its reply: the answer is there, and is not yet given.
abbrev until_reply : List ResourceEvent
until_reply =
    shm_asked 5 true true true
    ∷ (progressed (sent_bytes 16) true (packet 16 false (rights (8 ∷ 9 ∷ []) ∷ []) reply) ∷ [])

abbrev replied : ResourceClient
replied = record fresh {
  request = record { id = 5; flags = 1 };
  pending = true;
  ready = true;
  sent = true;
  first = some 8;
  second = some 9;
  reply = reply;
}

until_reply-replied : (client_run (some (new_client (some 7))) until_reply).0 ≡ some replied
unfolding client_run client_step
until_reply-replied = refl

resources_shm-whole_example : whole_answer (resources_shm replied 5 true true true).1.0 ≡ true
resources_shm-whole_example =
    resources_shm-whole (some 7) until_reply replied 5 true true true until_reply-replied

abbrev waiting : ResourceClient
waiting = record fresh {
  request = record { id = 5; flags = 1 };
  pending = true;
  watched = some writing;
  armed = true;
}

asked-waiting :
    (client_run (some (new_client (some 7))) (shm_asked 5 true true true ∷ [])).0 ≡ some waiting
unfolding client_run client_step
asked-waiting = refl

expired-answers_example :
    waiting.armed ≡ true
    × ((s : ResourceClient) × ((closed : List ResourceEffect) × ((client_step (some waiting) expired
              ≡ (some s, closed ++ (attend ∷ [])))
            × (let (t, (answer, effects)) = resources_shm s 5 true true true in
                (answer ≡ refusal (errno etimedout))
                × (t.fd ≡ none)
                × ((resources_shm t 6 false true true).1.0 ≡ refusal (errno epipe))))))
expired-answers_example =
    expired-answers (some 7) (shm_asked 5 true true true ∷ []) waiting 5 6 true false true true
      asked-waiting refl refl refl refl

abbrev one_waits : Admissions
one_waits = record { waiting = 3 ∷ []; admissions = 1 }

admission_step-Kept_example :
    let event =
      readable 0 (peeked b'R') (packet 1 false (rights (4 ∷ []) ∷ []) reply) true true (some 2) in
    let (t, (entry, effects)) = admission_step 10 one_waits event in
    IsCounted 10 t
    × (all_held 4 one_waits.waiting + installed 4 effects
        ≡ all_held 4 t.waiting + entry_owns 4 (channel_of entry) + released 4 effects)
admission_step-Kept_example =
    admission_step-Kept 4 10 one_waits
      (readable 0 (peeked b'R') (packet 1 false (rights (4 ∷ []) ∷ []) reply) true true (some 2))
      (record { counted = refl; bounded = omega arith })
