-- ===== src/Shell/Host.antt =====
-- What the host knows of the shell, over everything that can happen to it.
use magicdesk_x.Prelude.{
  ℕ, ◌≡◌, refl, ap, ◌∙◌, ◌≢◌, inl, inr, Bool, true, false, not, ◌&&◌, ◌||◌, List, [], ◌∷◌, arith,
  ◌==◌, if◌then◌else◌, Bool-cases, if-both, not-true, not-false,
}
use magicdesk_x.Prelude.Int.{ℤ, pos, pos_part, eqb_ℤ}
use magicdesk_x.Shell.{
  ShellState, ShellTrees, ShellEnv, ShellEffect, shell_state, screen_configured, ShellOutcome,
  shell_reset, geometry_changed, bad_size, shell_configure, shell_refresh,
}
use magicdesk_x.Shell.Laws.{Table, hear, hear_all, view, IsTable}
use magicdesk_x.Shell.Steps.{Follows, reset-IsTable, refresh-Follows}

unavailable :
    (owner id : ℕ) (v : Table) → (id == owner) ≡ false → hear owner (shell_state id false) v ≡ v
unavailable owner id v h = rw h refl

gone : (owner id : ℕ) (v : Table) → (id == owner) ≡ true → hear owner (shell_state id false) v ≡ []
gone owner id v h = rw h refl

gone_empty : (owner id : ℕ) → hear owner (shell_state id false) [] ≡ []
gone_empty owner id =
    if-both (λ (v : Table). v ≡ []) (not false && id == owner) [] [] (λ e. refl) (λ e. refl)

==_flip : (a b : ℕ) (c : Bool) → (a == b) ≡ c → (b == a) ≡ c
==_flip a b c h = ground arith

-- Nothing is left of an owner that gives up, or of no owner.
ended_told :
    (s : ShellState) (id : ℕ)
    → IsTable s
    → (not (s.owner == 0) && not (s.owner == id)) ≡ false
    → hear s.owner (shell_state id false) (view s.records) ≡ []
ended_told s id t h = elim (Bool-cases (s.owner == 0)) [
  | inl e ↦
      let none_left = t.owned (zero_of s.owner e) in
      ap (λ rs. hear s.owner (shell_state id false) (view rs)) none_left ∙ gone_empty s.owner id
  | inr e ↦
      let same : not (s.owner == id) ≡ false = rw e at h in
      gone s.owner id (view s.records) (==_flip s.owner id true (not-false (s.owner == id) same))
]
  where
    zero_of : (n : ℕ) → (n == 0) ≡ true → n ≡ 0
    zero_of n h = ground arith

configure-Follows :
    (env : ShellEnv) (s : ShellState) (id : ℕ) (width height : ℤ)
    → IsTable s
    → Follows s (shell_configure env s id width height)
unfolding shell_configure
configure-Follows env s id width height t =
    let P = Follows s in
    let told : List ShellEffect = shell_state id false ∷ [] in
    let started : ShellOutcome = (
      record s { owner = id; dirty = true },
      screen_configured (pos_part width) (pos_part height) ∷ shell_state id true ∷ [],
    ) in
    let left : ShellOutcome = (if s.owner == id then shell_reset s else s, told) in
    let last = if bad_size width height || env.external then left else started in
    let closed : ShellOutcome = (shell_reset s, told) in
    let sized = if eqb_ℤ width (pos 0) && eqb_ℤ height (pos 0) then closed else last in
    if-both P (id == 0) (s, [])
      (if not (s.owner == 0) && not (s.owner == id) then (s, told) else sized) (λ e. (t, refl))
      (λ e.
        if-both P (not (s.owner == 0) && not (s.owner == id)) (s, told) sized
          (λ f.
            let other = other_owner (not (s.owner == 0)) (s.owner == id) f in
            (t, unavailable s.owner id (view s.records) (==_flip s.owner id false other)))
          (λ f.
            if-both P (eqb_ℤ width (pos 0) && eqb_ℤ height (pos 0)) closed last
              (λ g. (reset-IsTable s, ended_told s id t f))
              (λ g.
                if-both P (bad_size width height || env.external) left started
                  (λ h.
                    if-both (λ (u : ShellState). P (u, told)) (s.owner == id) (shell_reset s) s
                      (λ k. (reset-IsTable s, ended_told s id t f))
                      (λ k.
                        (t, unavailable s.owner id (view s.records) (==_flip s.owner id false k))))
                  (λ h. (
                    record {
                      unique = t.unique;
                      limited = t.limited;
                      owned = λ z. absurd (not_zero id e z);
                    },
                    refl,
                  )))))
  where
    other_owner : (a b : Bool) → (a && not b) ≡ true → b ≡ false
    other_owner true b h = not-true b h
    other_owner false b h = absurd cc

    not_zero : (n : ℕ) → (n == 0) ≡ false → n ≢ 0
    not_zero n h = ground arith

-- The host's command, a change of the geometry, and the refresh.
pub data ShellEvent : Type 0 where
  configured : ℕ → ℤ → ℤ → ShellEvent
  geometry_moved : ShellEvent
  refreshed : ShellTrees → ShellEvent

unfoldable pub shell_step : ShellEnv → ShellState → ShellEvent → ShellOutcome
unfolding shell_configure shell_refresh
shell_step env s (configured id width height) = shell_configure env s id width height
shell_step env s geometry_moved = (geometry_changed s, [])
shell_step env s (refreshed roots) = shell_refresh env roots s

step-Follows :
    (env : ShellEnv) (s : ShellState) (event : ShellEvent)
    → IsTable s
    → Follows s (shell_step env s event)
unfolding shell_step
step-Follows env s (configured id width height) t = configure-Follows env s id width height t
step-Follows env s (refreshed roots) t = refresh-Follows env roots s t
step-Follows env s geometry_moved t =
    if-both (λ (u : ShellState). Follows s (u, [])) (s.owner == 0) s (record s { dirty = true })
      (λ e. (t, refl))
      (λ e. (record { unique = t.unique; limited = t.limited; owned = t.owned }, refl))

-- The state, and the host's table, after one event after the other.
unfoldable pub shell_run : List (ShellEnv × ShellEvent) → ShellState → Table → ShellState × Table
unfolding shell_step
shell_run [] s v = (s, v)
shell_run ((env, event) ∷ events) s v =
    shell_run events (shell_step env s event).0 (hear_all s.owner (shell_step env s event).1 v)

-- Over any run of commands and refreshes, from a state in which the host's table is the list of records,
-- each window has one record and there are 32 at most, the host's table, as the messages build it, is
-- the list of records at the end too: same windows, same descriptions, same order.
pub shell_run-view :
    (events : List (ShellEnv × ShellEvent)) (s : ShellState) (v : Table)
    → IsTable s
    → v ≡ view s.records
    → IsTable (shell_run events s v).0
      × ((shell_run events s v).1 ≡ view (shell_run events s v).0.records)
unfolding shell_run
shell_run-view [] s v t h = (t, h)
shell_run-view ((env, event) ∷ events) s v t h =
    let (u, told) = step-Follows env s event t in
    let o = shell_step env s event in
    shell_run-view events o.0 (hear_all s.owner o.1 v) u (ap (hear_all s.owner o.1) h ∙ told)
