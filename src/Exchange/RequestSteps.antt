-- ===== src/Exchange/RequestSteps.antt =====
-- The same of the requests to an owner and the offers that are published.
use magicdesk_x.Prelude.{
  option-both, ℕ, ◌*◌, ◌≡◌, refl, ap, Bool, true, false, not, ◌&&◌, Option, none, some, List, [],
  ◌∷◌, ◌++◌, arith, ◌==◌, if◌then◌else◌, if-both, length,
}
use magicdesk_x.Exchange.{
  max_targets, Transfer, DataState, offer_of, next_u32, DataEffect, DataEnv, close_file, write_file,
  emit, offer_operation,
}
use magicdesk_x.Exchange.Transfers.{
  transfer_at, put_transfer, close_some, free_place, fresh_transfer, allocate, bytes_file,
  publish_targets, request_refused, asked_owner, requested, request, target_names,
}
use magicdesk_x.Exchange.Protocol.{replay}
use magicdesk_x.Exchange.Steps.{
  IsBounded, IsStep, from-IsStep, from_put-IsStep, put-IsStep, quiet-IsStep, IsQuiet,
  append-IsQuiet, close_some-IsQuiet, put_transfer-IsBounded, transfer_at-IsSized, fail-IsStep,
}

pub bytes_file-IsQuiet : (env : DataEnv) (bytes : List ℕ) → IsQuiet (bytes_file env bytes).1
unfolding bytes_file replay
bytes_file-IsQuiet env bytes =
    let P = λ (o : Option ℕ × List DataEffect). IsQuiet o.1 in
    option-both P env.new_file _ _ (record { quiet = λ p. refl })
      (λ fd e.
        if-both P (not (length bytes == 0) && not env.file_io_succeeds) (none, close_file fd ∷ [])
          (some fd, write_file fd 0 bytes ∷ []) (λ f. record { quiet = λ p. refl })
          (λ f. record { quiet = λ p. refl }))

pub publish_targets-IsStep :
    (env : DataEnv) (s : DataState) (channel : Bool) → IsStep s (publish_targets env s channel)
unfolding publish_targets replay
publish_targets-IsStep env s channel =
    let names = target_names env (max_targets * 128) (offer_of s channel).targets in
    let (fd, effects) = bytes_file env names in
    let offer = offer_of s channel in
    let told =
      emit offer_operation channel 0 offer.generation none fd
        (if channel then s.pointer_output else 0) offer.owner 0 in
    quiet-IsStep s _ (
      append-IsQuiet (effects ++ told) (close_some fd)
        (append-IsQuiet effects told (bytes_file-IsQuiet env names) (record { quiet = λ p. refl }))
        (close_some-IsQuiet fd))

pub request_refused-IsStep :
    (s : DataState) (channel : Bool) (serial generation target : ℕ) (listing : Bool)
    → IsStep s (request_refused s channel serial generation target listing)
unfolding replay
request_refused-IsStep s channel serial generation target true =
    quiet-IsStep s [] (record { quiet = λ p. refl })
request_refused-IsStep s channel serial generation target false =
    quiet-IsStep s _ (record { quiet = λ p. refl })

requested-IsStep :
    (env : DataEnv) (s : DataState) (n owner target : ℕ) (listing : Bool)
    → IsStep s (requested env s n owner target listing)
unfolding requested replay
requested-IsStep env s n owner target listing =
    let t : Transfer = record (transfer_at s n) {
      target = target;
      listing = listing;
      property = env.atoms.data_property;
      requestor = env.new_window;
    } in
    let sized = λ (b : IsBounded s). transfer_at-IsSized s n b in
    if-both (IsStep s) (t.requestor == 0) _ _
      (λ e. from_put-IsStep s n t _ sized (fail-IsStep env (put_transfer s n t) n))
      (λ e. put-IsStep s n t _ sized (record { quiet = λ p. refl }))

IsBounded-along : (v u : DataState) → v ≡ u → IsBounded v → IsBounded u
IsBounded-along v u e b = rw e at b

-- The transfer that is given is new, and nothing else has changed.
pub allocate-keeps :
    (env : DataEnv) (s u : DataState) (incoming channel : Bool) (serial generation n : ℕ)
    → allocate env s incoming channel serial generation ≡ some (u, n)
    → (s.drag ≡ u.drag) × (IsBounded s → IsBounded u)
unfolding allocate
allocate-keeps env s u incoming channel serial generation n =
    let K = λ (o : Option (DataState × ℕ)).
      o ≡ some (u, n) → (s.drag ≡ u.drag) × (IsBounded s → IsBounded u) in
    option-both K (free_place s.transfers) none
      (λ m.
        let ticket = next_u32 s.transfer_sequence in
        some (
          put_transfer (record s { transfer_sequence = ticket }) m
              (fresh_transfer env.timer_set incoming channel serial generation ticket),
          m,
        ))
      (λ h. absurd cc)
      (λ m f h.
        let ticket = next_u32 s.transfer_sequence in
        let t = fresh_transfer env.timer_set incoming channel serial generation ticket in
        let v = put_transfer (record s { transfer_sequence = ticket }) m t in
        let e : v ≡ u =
          ap (λ (o : Option (DataState × ℕ)). elim o [ none ↦ s | some (w, k) ↦ w ]) h in
        (
          ap (λ (w : DataState). w.drag) e,
          λ b. IsBounded-along v u e (
              put_transfer-IsBounded (record s { transfer_sequence = ticket }) m t (omega arith) b),
        ))

pub request-IsStep :
    (env : DataEnv) (s : DataState) (channel : Bool) (serial generation target : ℕ) (listing : Bool)
    → IsStep s (request env s channel serial generation target listing)
unfolding request
request-IsStep env s channel serial generation target listing =
    let refused = request_refused-IsStep s channel serial generation target listing in
    option-both (IsStep s) (asked_owner env (offer_of s channel) channel generation) _ _ refused
      (λ owner e.
        option-both (IsStep s) (allocate env s true channel serial generation)
          (request_refused s channel serial generation target listing)
          (λ (u, n). requested env u n owner target listing) refused
          (λ (u, n) f.
            let (d, b) = allocate-keeps env s u true channel serial generation n f in
            from-IsStep s u (requested env u n owner target listing) d b
              (requested-IsStep env u n owner target listing)))
