-- ===== src/Cursor/Publish.antt =====
-- The life of the published cursor: what is valid, what is written where, and what the host knows.
use magicdesk_x.Prelude.{
  ℕ, ◌*◌, ◌≤◌, ◌≡◌, refl, ◌≢◌, Bool, true, false, Option, none, some, List, [], ◌∷◌, arith,
}
use magicdesk_x.Cursor.{
  cursor_size_limit, cursor_valid, cursor_pixel_count, CursorBits, Cursor, null, root_cursor,
  no_bits, bits, CursorState, mono_pixels, image_info, bits_pixels, cursor_set, cursor_select,
  cursor_release, CursorEvent, cursor_publish,
}
use magicdesk_x.Cursor.Image.{fill_lem, fill_rows_lem}

-- Everything that the server thread does with the cursor.
pub data Action : Type 0 where
  set_cursor : Cursor → Action
  select : ℕ → ℕ → Action
  release : ℕ → Action
  publish : Action

module _ (msb_first : Bool) (byte_pad : ℕ → ℕ) where
  -- The state with the last event that the host was sent.
  abbrev pub act : CursorState × Option CursorEvent → Action → CursorState × Option CursorEvent
  act (s, last) (set_cursor c) = (cursor_set msb_first byte_pad s c, last)
  act (s, last) (select output window) = (cursor_select s output window, last)
  act (s, last) (release output) = (cursor_release s output, last)
  act (s, last) publish =
      let (t, event) = cursor_publish s in (t, elim event [ none ↦ last | some e ↦ some e ])

  abbrev pub run : CursorState × Option CursorEvent → List Action → CursorState × Option CursorEvent
  run k [] = k
  run k (a ∷ actions) = run (act k a) actions

abbrev pub event_of : CursorState → CursorEvent
event_of s = record { output = s.output; window = s.window; info = s.info; pixels = s.pixels }

-- The shape is always one that the host accepts, and where nothing is pending for a selected output
-- the host has been sent exactly the present output, window, shape and pixels.
pub record InSync (k : CursorState × Option CursorEvent) : Type 0 where
  pub valid : cursor_valid k.0.info ≡ true
  pub known : k.0.pending ≡ false → k.0.output ≢ 0 → k.1 ≡ some (event_of k.0)

module _ (msb_first : Bool) (byte_pad : ℕ → ℕ) where
  set-valid :
      (s : CursorState) (c : Cursor)
      → (cursor_valid (cursor_set msb_first byte_pad s c).info ≡ true)
        × ((cursor_set msb_first byte_pad s c).pending ≡ true)
  unfolding cursor_set
  set-valid s null = (refl, refl)
  set-valid s root_cursor = (refl, refl)
  set-valid s no_bits = (refl, refl)
  set-valid s (bits b) = ground arith

  area_limit : (h w : ℕ) → h ≤ 512 → w ≤ 512 → h * w ≤ 512 * 512
  area_limit h w a b = grind arith

  pixel_count_limit :
      (b : CursorBits) → cursor_pixel_count (image_info msb_first byte_pad b) ≤ b.width * b.height
  unfolding cursor_pixel_count
  pixel_count_limit b = ground arith

  valid_limits :
      (b : CursorBits)
      → cursor_valid (image_info msb_first byte_pad b) ≡ true
      → (b.width ≤ 512) × (b.height ≤ 512)
  unfolding cursor_valid
  valid_limits b h = ground arith

  bits_pixels-inside :
      (b : CursorBits) (argb : Option (ℕ → ℕ)) (pixels : ℕ → ℕ) (i : ℕ)
      → b.width ≤ 512
      → b.height ≤ 512
      → 512 * 512 ≤ i
      → bits_pixels msb_first byte_pad b argb pixels i ≡ pixels i
  unfolding mono_pixels
  bits_pixels-inside b none pixels i w h far =
      (fill_rows_lem b.height b.width _ pixels 0 0 i).1
        (omega (arith, area_limit b.height b.width h w))
  bits_pixels-inside b (some argb) pixels i w h far =
      (fill_lem (cursor_pixel_count (image_info msb_first byte_pad b)) 0 _ pixels i).2
        (omega (arith, pixel_count_limit b, area_limit b.width b.height w h))

  -- Setting a cursor writes inside the static array of 512 x 512 pixels only, whatever size and
  -- hotspot the client gave its cursor.
  pub cursor_set-inside :
      (s : CursorState) (c : Cursor) (i : ℕ)
      → cursor_size_limit * cursor_size_limit ≤ i
      → (cursor_set msb_first byte_pad s c).pixels i ≡ s.pixels i
  unfolding cursor_set
  cursor_set-inside s null i far = refl
  cursor_set-inside s root_cursor i far = refl
  cursor_set-inside s no_bits i far = refl
  cursor_set-inside s (bits b) i far =
      ground (arith, bits_pixels-inside b b.argb s.pixels i, valid_limits b)

  act-InSync :
      (a : Action) (s : CursorState) (last : Option CursorEvent)
      → InSync (s, last)
      → InSync (act msb_first byte_pad (s, last) a)
  unfolding cursor_select cursor_release cursor_publish
  act-InSync (set_cursor c) s last v =
      let (valid, waits) = set-valid s c in record { valid = valid; known = λ p o. cc }
  act-InSync (select output window) s last v = ground arith
  act-InSync (release output) s last v = ground arith
  act-InSync publish s last v = ground arith

  -- From the start on, whatever cursors are set, outputs selected or released and whenever the state
  -- is published, the host never holds a stale or invalid shape while nothing is pending.
  pub run-InSync :
      (actions : List Action) (s : CursorState) (last : Option CursorEvent)
      → InSync (s, last)
      → InSync (run msb_first byte_pad (s, last) actions)
  run-InSync [] s last v = v
  run-InSync (a ∷ actions) s last v =
      let k = act msb_first byte_pad (s, last) a in
      run-InSync actions k.0 k.1 (act-InSync a s last v)
