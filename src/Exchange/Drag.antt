-- ===== src/Exchange/Drag.antt =====
-- A drag from the host over the X windows: the XDND source that the bridge is.
use magicdesk_x.Prelude.{
  ℕ, ◌+◌, ◌-◌, ◌*◌, ◌%◌, ◌^◌, min, Bool, true, false, not, ◌&&◌, ◌||◌, Option, none, some, List, [],
  ◌∷◌, ◌++◌, ltb, ◌==◌, if◌then◌else◌, length, get_elem?, get_or,
}
use magicdesk_x.Prelude.Int.{ℤ, pos, negsuc, ◌+ℤ◌, ltb_ℤ, leb_ℤ}
use magicdesk_x.Exchange.{
  Transfer, DragMove, DragState, DataState, next_u32, finish_operation, xdnd_enter, xdnd_position,
  xdnd_leave, xdnd_drop, DataEffect, DataOutcome, PropertyValue, DataEnv, message, emit, WindowNode,
  WindowNodes, node, no_nodes, more_nodes,
}

abbrev pub with_drag : DataState → DragState → DataState
with_drag s d = record s { drag = d }

-- Whether `childAt` looks at a child: the bridge and the catcher are passed over.
abbrev pub hits : ℕ → ℕ → ℤ → ℤ → ℕ → Bool → Bool → ℤ → ℤ → ℕ → ℕ → Bool → Bool
hits bridge catcher x y id mapped unhittable left top width height shaped =
    mapped
    && (not unhittable
        && (not (id == bridge)
            && (not (id == catcher)
                && (leb_ℤ left x
                    && (leb_ℤ top y
                        && (ltb_ℤ x (left +ℤ pos width)
                            && (ltb_ℤ y (top +ℤ pos height) && shaped)))))))

-- `childAt`: the innermost window below a point.
unfoldable mutual
  pub child_at : ℕ → ℕ → ℤ → ℤ → WindowNode → ℕ
  child_at bridge catcher x y (node id mapped unhittable left top width height shaped children) =
      hit_among bridge catcher x y id children

  pub hit_among : ℕ → ℕ → ℤ → ℤ → ℕ → WindowNodes → ℕ
  hit_among bridge catcher x y parent no_nodes = parent
  hit_among bridge catcher x y parent
        (more_nodes (node id mapped unhittable left top width height shaped children) rest) =
      let nested = hit_among bridge catcher x y id children in
      let later = hit_among bridge catcher x y parent rest in
      if hits bridge catcher x y id mapped unhittable left top width height shaped
      then (if nested == 0 then id else nested)
      else later

-- The first item of a property with 32-bit items of a kind.
abbrev pub first_item : Option PropertyValue → ℕ → Option ℕ
first_item none kind = none
first_item (some p) kind = if p.kind == kind && p.format == 32 then get_elem? p.items 0 else none

-- The only item of such a property.
abbrev pub only_item : Option PropertyValue → ℕ → Option ℕ
only_item none kind = none
only_item (some p) kind =
    if p.kind == kind && (p.format == 32 && length p.items == 1) then get_elem? p.items 0 else none

-- `awareVersion`.
unfoldable pub aware_version : DataEnv → ℕ → ℕ
aware_version env window =
    elim (first_item (env.property window env.atoms.aware) env.atoms.atom_kind) [
      | none ↦ 0
      | some version ↦ min 5 version
    ]

unfoldable pub aware_window : DataEnv → List ℕ → ℕ
unfolding aware_version
aware_window env [] = 0
aware_window env (window ∷ ancestors) =
    let later = aware_window env ancestors in
    if aware_version env window == 0 then later else window

-- `destinationProxy`: a proxy counts if it names itself.
unfoldable pub destination_proxy : DataEnv → ℕ → ℕ
destination_proxy env target =
    elim (only_item (env.property target env.atoms.proxy) env.atoms.window_kind) [
      | none ↦ target
      | some id ↦ elim (only_item (env.property id env.atoms.proxy) env.atoms.window_kind) [
        | none ↦ target
        | some own ↦ if own == id then id else target
      ]
    ]

abbrev pub target_at : List ℕ → ℕ → ℕ
target_at targets n = get_or targets n 0

-- The XdndEnter for a new target; more than three types are a flag.
abbrev pub enter_message : DataEnv → DragState → List ℕ → List DataEffect
enter_message env d targets =
    message env d.proxy d.target xdnd_enter d.source
      (d.version * 2 ^ 24 + (if ltb 3 (length targets) then 1 else 0)) (target_at targets 0)
      (target_at targets 1) (target_at targets 2)

abbrev pub leave_message : DataEnv → DragState → List DataEffect
leave_message env d =
    if d.target == 0 then [] else message env d.proxy d.target xdnd_leave d.source 0 0 0 0

-- The drag has come to another target, or to none.
abbrev pub retargeted : DataEnv → ℕ → DragState → DragState
retargeted env next d = record d {
  target = next;
  proxy = if next == 0 then 0 else destination_proxy env next;
  accepted = false;
  position_pending = false;
  version = if next == 0 then d.version else aware_version env next;
}

abbrev pub retarget : DataEnv → List ℕ → ℕ → DragState → DragState × List DataEffect
retarget env targets next d = if next == d.target then (d, []) else (
  retargeted env next d,
  leave_message env d
      ++ (if next == 0 then [] else enter_message env (retargeted env next d) targets),
)

abbrev pub to_u16 : ℤ → ℕ
to_u16 (pos n) = n % 2 ^ 16
to_u16 (negsuc n) = 2 ^ 16 - 1 - n % 2 ^ 16

-- `((uint32_t) x << 16) | (y & 0xffff)`.
abbrev pub packed_point : ℤ → ℤ → ℕ
packed_point x y = to_u16 x * 2 ^ 16 + to_u16 y

abbrev pub positioned : DataEnv → ℤ → ℤ → DragState → DragState × List DataEffect
positioned env x y d = if d.target == 0 then (d, []) else (
  record d { position_pending = true; position_data_revision = d.data_revision },
  message env d.proxy d.target xdnd_position d.source 0 (packed_point x y) env.time env.atoms.copy,
)

-- The part of `moveDrag` for a point on an output.
unfoldable pub drag_over :
    DataEnv → List ℕ → ℕ → ℕ → ℤ → ℤ → DragState → DragState × List DataEffect
unfolding destination_proxy aware_version
drag_over env targets next output x y d =
    let (e, told) = retarget env targets next d in
    let (f, moved) = positioned env x y (record e { output = output }) in (f, told ++ moved)

unfoldable pub window_under : DataEnv → DataState → WindowNode → ℤ → ℤ → ℕ
unfolding child_at aware_window
window_under env s tree x y =
    aware_window env (env.ancestors (child_at s.bridge s.export.catcher x y tree))

-- `moveDrag`.
unfoldable pub move_drag : DataEnv → DataState → DragMove → DataOutcome
unfolding drag_over window_under
move_drag env s move =
    let d = record s.drag { move = move } in
    if d.position_pending
    then (with_drag s (record d { move_queued = true }), [])
    else elim (env.point move.output move.window move.x move.y) [
      | none ↦ (with_drag s d, [])
      | some (tree, x, y) ↦
          let (e, effects) =
            drag_over env s.drag_offer.targets (window_under env s tree x y) move.output x y d in
          (with_drag s e, effects)
    ]

-- `dragDataPending`.
unfoldable pub drag_data_pending : ℕ → List Transfer → Bool
drag_data_pending generation [] = false
drag_data_pending generation (t ∷ rest) =
    (t.used && (not t.incoming && (t.channel && t.generation == generation)))
    || drag_data_pending generation rest

-- `rejectDrag`.
unfoldable pub reject_drag : DataEnv → DataState → DataOutcome
reject_drag env s =
    let d = s.drag in
    (
      with_drag s (record d { drop_pending = false; target = 0 }),
      leave_message env d
          ++ emit finish_operation true 0 s.drag_offer.generation none none d.output d.target 0,
    )

-- The end of `dropDrag`: the target gets the drop or is left.
unfoldable pub drop_now : DataEnv → DataState → DataOutcome
unfolding reject_drag
drop_now env s =
    let d = s.drag in
    if not (d.target == 0) && d.accepted
    then (
      with_drag s (record d { drop_pending = false }),
      message env d.proxy d.target xdnd_drop d.source 0 env.time 0 0,
    )
    else reject_drag env s

abbrev pub drop_later : DataState → DataState
drop_later s = with_drag s (record s.drag { drop_pending = true })

-- `dropDrag`.
unfoldable pub drop_drag : DataEnv → DataState → DataOutcome
unfolding drop_now move_drag drag_data_pending
drop_drag env s =
    let d = s.drag in
    if d.position_pending
    then (drop_later s, [])
    else if not (d.target == 0) && not d.accepted
    then (if drag_data_pending s.drag_offer.generation s.transfers
        then (drop_later s, [])
        else if not (d.data_revision == d.position_data_revision)
        then move_drag env (drop_later s) d.move
        else drop_now env s)
    else drop_now env s

abbrev pub revised : Bool → DragState → DragState
revised true d = record d { data_revision = next_u32 d.data_revision }
revised false d = d

-- The end of `selectionFinished`: a drop that has waited for the data.
unfoldable pub drop_resumed : DataEnv → DataState → Bool → DataOutcome
unfolding drop_drag reject_drag
drop_resumed env s success =
    if not s.drag.drop_pending
    then (s, [])
    else if success
    then drop_drag env s
    else reject_drag env s

-- Whether a transfer's end is of no interest to the drag.
abbrev pub no_drag_data : DataState → Transfer → Bool
no_drag_data s t =
    t.incoming
    || (not t.channel || (not (t.generation == s.drag_offer.generation) || s.drag.target == 0))

-- `selectionFinished`.
unfoldable pub selection_finished : DataEnv → DataState → Transfer → Bool → DataOutcome
unfolding drop_resumed
selection_finished env s t success =
    if no_drag_data s t
    then (s, [])
    else drop_resumed env (with_drag s (revised success s.drag)) success
