-- ===== src/Model/Current.antt =====
-- The record of a window after the walk is as the window is.
use magicdesk_x.Prelude.{
  not_both, ==_refl, ℕ, zero, suc, ◌≡◌, refl, ◌∙◌, inl, inr, Bool, true, false, not, ◌&&◌, ◌||◌,
  none, some, List, [], ◌∷◌, ◌++◌, ◌==◌, if-both, Option-cases, All,
}
use magicdesk_x.Prelude.Bits.{beqb, holds_below}
use magicdesk_x.Icon.{icon_pixels}
use magicdesk_x.Model.{ModelWindow, ModelEnv, WindowRecord, ModelState, window_told, ModelOutcome}
use magicdesk_x.Model.Records.{
  find_live, is_application, new_record, with_record, record_for, on_record,
}
use magicdesk_x.Model.Publish.{
  info_of, title_of, icon_of, role_of, same_text, role_number, is_stale, mark_seen, looked_at,
  window_part, tell_record, publish_window,
}
use magicdesk_x.Model.Refreshed.{published_in}
use magicdesk_x.Model.Updates.{find-update, find-made}
use magicdesk_x.Model.Walk.{publish_all, publish_all-other}

same_text_refl : (text : List ℕ) → same_text text text ≡ true
same_text_refl [] = refl
same_text_refl (a ∷ rest) = rw (==_refl a, same_text_refl rest) (either (a == 0))
  where
    either : (b : Bool) → (true && (b || true)) ≡ true
    either true = refl
    either false = refl

holds_for_all : (n : ℕ) (test : ℕ → Bool) → ((i : ℕ) → test i ≡ true) → holds_below n test ≡ true
unfolding holds_below
holds_for_all zero test k = refl
holds_for_all (suc n) test k = rw (k n) (holds_for_all n test k)

beqb_refl : (b : Bool) → beqb b b ≡ true
beqb_refl true = refl
beqb_refl false = refl

-- A record that has just been looked at is as the window is.
looked_current :
    (env : ModelEnv) (window : ModelWindow) (r : WindowRecord)
    → is_stale env window (looked_at env window r) ≡ false
unfolding is_stale
looked_current env window r =
    rw
      (
        beqb_refl window.realized,
        same_text_refl (title_of window),
        ==_refl (role_number (role_of env window)),
        beqb_refl (icon_of env window).0,
        holds_for_all icon_pixels (λ i. (icon_of env window).1 i == (icon_of env window).1 i)
            (λ i. ==_refl ((icon_of env window).1 i)),
      )
      refl

-- The record of a window has been seen, and is as the window is.
pub record IsCurrent (env : ModelEnv) (window : ModelWindow) (rs : List WindowRecord) : Type 0 where
  pub shown : WindowRecord
  pub found : find_live window.id rs ≡ some shown
  pub seen : shown.seen ≡ true
  pub same : is_stale env window shown ≡ false

tell-IsCurrent :
    (env : ModelEnv) (u : ModelState) (window : ModelWindow) (r : WindowRecord)
    → find_live window.id u.records ≡ some r
    → r.seen ≡ true
    → IsCurrent env window (tell_record env u window r).0.records
unfolding tell_record
tell-IsCurrent env u window r e s =
    if-both (λ (o : ModelOutcome). IsCurrent env window o.0.records) (is_stale env window r)
      (
        on_record u window.id (looked_at env window),
        window_told window.id (info_of u.manager (looked_at env window r)) (window_part env window)
            ∷ [],
      )
      (u, [])
      (λ k. record {
        shown = looked_at env window r;
        found = find-update window.id (looked_at env window) u.records r (λ x q. q) e;
        seen = s;
        same = looked_current env window r;
      })
      (λ k. record { shown = r; found = e; seen = s; same = k })

published-IsCurrent :
    (env : ModelEnv) (t : ModelState) (window : ModelWindow) (r : WindowRecord)
    → find_live window.id t.records ≡ some r
    → IsCurrent env window (published_in env window t).0.records
published-IsCurrent env t window r e =
    let marked = find-update window.id mark_seen t.records r (λ x q. q) e in
    rw (published_in, marked)
      (tell-IsCurrent env (on_record t window.id mark_seen) window (mark_seen r) marked refl)

made_record :
    (env : ModelEnv) (s : ModelState) (window : ModelWindow)
    → find_live window.id s.records ≡ none
    → is_application env window ≡ true
    → window.realized ≡ true
    → env.memory ≡ true
    → record_for env s window ≡ some (with_record env s window)
unfolding record_for
made_record env s window e a r m =
    let made = some (with_record env s window) in
    rw (record_for, a, e)
      (if-both (λ o. o ≡ made) (not window.realized || not env.memory) none made
        (λ k. absurd (not_both window.realized env.memory r m k)) (λ k. refl))

-- A window that is an application, realized, and for which memory is there has a record.
publish-IsCurrent :
    (env : ModelEnv) (s : ModelState) (window : ModelWindow)
    → is_application env window ≡ true
    → window.realized ≡ true
    → env.memory ≡ true
    → IsCurrent env window (publish_window env s window).0.records
unfolding publish_window record_for
publish-IsCurrent env s window a r m = elim (Option-cases (find_live window.id s.records)) [
  | inl e ↦
      rw (publish_window, made_record env s window e a r m)
        (published-IsCurrent env (with_record env s window) window (new_record env s window)
          (find-made env s window))
  | inr (x, e) ↦ rw (publish_window, record_for, a, e) (published-IsCurrent env s window x e)
]

kept-IsCurrent :
    (env : ModelEnv) (window : ModelWindow) (rs ts : List WindowRecord)
    → find_live window.id ts ≡ find_live window.id rs
    → IsCurrent env window rs
    → IsCurrent env window ts
kept-IsCurrent env window rs ts e c = record {
  shown = c.shown;
  found = e ∙ c.found;
  seen = c.seen;
  same = c.same;
}

pub all-IsCurrent :
    (env : ModelEnv) (before later : List ModelWindow) (window : ModelWindow) (s : ModelState)
    → is_application env window ≡ true
    → window.realized ≡ true
    → env.memory ≡ true
    → All (λ w. (w.id == window.id) ≡ false) later
    → IsCurrent env window (publish_all env (before ++ (window ∷ later)) s).0.records
unfolding publish_all
all-IsCurrent env [] later window s a r m k =
    let t = (publish_window env s window).0 in
    kept-IsCurrent env window t.records (publish_all env later t).0.records
      (publish_all-other env later t window.id k) (publish-IsCurrent env s window a r m)
all-IsCurrent env (x ∷ xs) later window s a r m k =
    all-IsCurrent env xs later window (publish_window env s x).0 a r m k
