-- ===== src/HardwareDisplay/Shown.antt =====
-- What the monochrome panel shows after calls of a display that was initialized.
use fuelflux.Base.{
  ℕ, ◌*◌, ◌/◌, ◌%◌, ◌<◌, ◌≡◌, refl, ap, arith, Bool, true, false, if◌then◌else◌, List, [], ◌∷◌,
  ◌++◌, Option, none, some, pos, sym, ◌∙◌, length,
}
use fuelflux.Pixels.{get_pixel}
use fuelflux.FourLine
use fuelflux.FourLine.{Draw, FourLine, drawn, new_four_line}
use fuelflux.FourLine.Cleared.{in_margin}
use fuelflux.FourLine.Margins.{render_lem}
use fuelflux.Panel.{Sent}
use fuelflux.Panel.St7565.{st7565, set_framebuffer}
use fuelflux.Panel.St7565.Screen.{Screen, receive, set_framebuffer_lem}
use fuelflux.HardwareDisplay.{
  HardwareDisplay, Bus, Setup, update, set_line, clear_all, st7565_display, send_any, send_some,
  st7565_settings,
}
use fuelflux.HardwareDisplay.Start.{
  initialize, first_update, with_fonts, with_impl, new_impl, after_init, after_reset,
}
use fuelflux.HardwareDisplay.Ready.{
  IsReady, Call, put, clear, refresh, calls, set_line-IsReady, clear_all-IsReady, update-IsReady,
}

abbrev size_of : Option FourLine → ℕ × ℕ
size_of none = (0, 0)
size_of (some f) = (f.width, f.height)

new_impl-size : size_of (new_impl st7565_settings) ≡ (128, 64)
unfolding new_four_line
new_impl-size = refl

module _ (bus : Bus) (draw : Draw) where
  calls-IsReady :
      (w h : ℕ) (d : HardwareDisplay) (cs : List Call)
      → IsReady w h d
      → IsReady w h (calls bus draw d cs)
  calls-IsReady w h d [] r = r
  calls-IsReady w h d (put i t ∷ cs) r =
      calls-IsReady w h (set_line d i t) cs (set_line-IsReady w h d i t r)
  calls-IsReady w h d (clear ∷ cs) r =
      calls-IsReady w h (clear_all d) cs (clear_all-IsReady w h d r)
  calls-IsReady w h d (refresh ∷ cs) r =
      calls-IsReady w h (update bus draw d).0 cs (update-IsReady bus draw w h d r)

  first_update-IsReady :
      (w h : ℕ) (r : HardwareDisplay × Bool)
      → IsReady w h r.0
      → (first_update r).1 ≡ true
      → IsReady w h (first_update r).0
  first_update-IsReady w h (d, true) r e = r
  first_update-IsReady w h (d, false) r e = cc

  with_fonts-IsReady :
      (w h : ℕ) (d : HardwareDisplay) (f : FourLine) (fonts : Bool)
      → d.lcd ≡ some (st7565 w h)
      → f.width ≡ w
      → f.height ≡ h
      → (with_fonts bus draw d (FourLine.initialize f fonts)).1 ≡ true
      → IsReady w h (with_fonts bus draw d (FourLine.initialize f fonts)).0
  unfolding FourLine.initialize
  with_fonts-IsReady w h d f false lcd wide high e = cc
  with_fonts-IsReady w h d f true lcd wide high e =
      let f' = (FourLine.initialize f true).0 in
      let opened = record d { connected = true; display_impl = some f' } in
      first_update-IsReady w h (update bus draw (clear_all opened))
        (update-IsReady bus draw w h (clear_all opened) (
          clear_all-IsReady w h opened (record {
            impl = f';
            has_impl = refl;
            has_lcd = lcd;
            on = refl;
            wide = wide;
            high = high;
          })))
        e

  with_impl-IsReady :
      (w h : ℕ) (d : HardwareDisplay) (fonts : Bool) (o : Option FourLine)
      → d.lcd ≡ some (st7565 w h)
      → size_of o ≡ (w, h)
      → (with_impl bus draw d fonts o).1 ≡ true
      → IsReady w h (with_impl bus draw d fonts o).0
  with_impl-IsReady w h d fonts none lcd size e = cc
  with_impl-IsReady w h d fonts (some f) lcd size e =
      with_fonts-IsReady w h d f fonts lcd (ap (λ p. p.0) size) (ap (λ p. p.1) size) e

  after_init-IsReady :
      (d : HardwareDisplay) (fonts : Bool) (o : Option ℕ)
      → d.settings ≡ st7565_settings
      → d.lcd ≡ some (st7565 128 64)
      → (after_init bus draw fonts (send_some d (st7565 128 64).init o)).1 ≡ true
      → IsReady 128 64 (after_init bus draw fonts (send_some d (st7565 128 64).init o)).0
  after_init-IsReady d fonts (some n) set lcd e = cc
  after_init-IsReady d fonts none set lcd e =
      with_impl-IsReady 128 64 (record d { sent = d.sent ++ (st7565 128 64).init }) fonts
        (new_impl d.settings) lcd (ap (λ s. size_of (new_impl s)) set ∙ new_impl-size) e

  after_reset-IsReady :
      (d : HardwareDisplay) (fonts : Bool) (o : Option ℕ)
      → d.settings ≡ st7565_settings
      → d.lcd ≡ some (st7565 128 64)
      → let r = after_reset bus draw fonts (st7565 128 64) (send_some d (st7565 128 64).reset o) in
        (r.1 ≡ true) → IsReady 128 64 r.0
  after_reset-IsReady d fonts (some n) set lcd e = cc
  after_reset-IsReady d fonts none set lcd e =
      let d' = record d { sent = d.sent ++ (st7565 128 64).reset } in
      after_init-IsReady d' fonts (bus (st7565 128 64).init) set lcd e

  initialize-IsReady :
      (setup : Setup)
      → (initialize bus draw setup st7565_display).1 ≡ true
      → IsReady 128 64 (initialize bus draw setup st7565_display).0
  unfolding initialize st7565_display
  initialize-IsReady setup e = of_wires setup.wires_open e
    where
      start : HardwareDisplay
      start = record st7565_display { lcd = some (st7565 128 64) }

      opened : HardwareDisplay × Bool
      opened =
          after_reset bus draw setup.font_loads (st7565 128 64)
            (send_some start (st7565 128 64).reset (bus (st7565 128 64).reset))

      shut : HardwareDisplay × Bool
      shut = (record st7565_display { connected = false }, false)

      of_wires :
          (b : Bool)
          → (if b then opened else shut).1 ≡ true
          → IsReady 128 64 (if b then opened else shut).0
      of_wires true k =
          after_reset-IsReady start setup.font_loads (bus (st7565 128 64).reset) refl refl k
      of_wires false k = cc

sent_all :
    (bus : Bus) (d : HardwareDisplay) (o : Option (List Sent)) (ws : List Sent)
    → o ≡ some ws
    → bus ws ≡ none
    → send_any bus d o ≡ (record d { sent = d.sent ++ ws }, true)
sent_all bus d o ws e free = rw (e, free) refl

resized : {A : Type 0} {w w' h h' : ℕ} (f : ℕ → ℕ → A) → w ≡ w' → h ≡ h' → f w h ≡ f w' h'
resized {w' = w'} {h = h} f e k = ap (λ a. f a h) e ∙ ap (λ b. f w' b) k

-- One update of a display that is ready, on wires that take everything.
update-Screen :
    (bus : Bus) (draw : Draw) (d : HardwareDisplay) (s : Screen) (x y : ℕ)
    → ((ws : List Sent) → bus ws ≡ none)
    → (r : IsReady 128 64 d) → x < 128
    → y < 64
    → (ws : List Sent) × (update bus draw d ≡ (
      record d { display_impl = some (FourLine.render draw r.impl); sent = d.sent ++ ws },
      true,
    ))
      × ((receive s ws).ram (y / 8) x (y % 8) ≡ (
          if in_margin r.impl x
          then false
          else get_pixel (drawn draw r.impl) 128 64 (pos x) (pos y)))
unfolding update st7565
update-Screen bus draw d s x y free r hx hy =
    let f = FourLine.render draw r.impl in
    let shown =
      render_lem draw r.impl x y r.on (ap (λ b. b % 8) r.high) (omega (arith, r.wide, hx))
        (omega (arith, r.high, hy)) in
    let size : length f.framebuffer ≡ 128 * (64 / 8) =
      shown.0 ∙ resized (λ a b. a * (b / 8)) r.wide r.high in
    let there = set_framebuffer_lem s 128 64 f.framebuffer x y size (omega arith) refl hx hy in
    (
      there.0,
      rw (r.has_impl, r.has_lcd)
          (sent_all bus (record d { display_impl = some f; lcd = some (st7565 128 64) })
            (set_framebuffer 128 64 f.framebuffer) there.0 there.1 (free there.0)),
      there.2
          ∙ (resized (λ a b. get_pixel f.framebuffer a b (pos x) (pos y)) (sym r.wide) (sym r.high)
              ∙ (shown.1
                  ∙ ap (λ p. if in_margin r.impl x then false else p)
                      (resized (λ a b. get_pixel (drawn draw r.impl) a b (pos x) (pos y)) r.wide
                        r.high))),
    )

-- After the display of the monochrome panel was initialized with success, and any lines were put,
-- cleared and shown in any order, an update on wires that take everything succeeds, and whatever
-- the panel showed, each of its pixels is then off in a margin, and between the margins as the
-- font draws the current lines.
pub update_lem :
    (bus : Bus) (draw : Draw) (setup : Setup) (cs : List Call) (s : Screen) (x y : ℕ)
    → ((ws : List Sent) → bus ws ≡ none)
    → (initialize bus draw setup st7565_display).1 ≡ true
    → x < 128
    → y < 64
    → let d = calls bus draw (initialize bus draw setup st7565_display).0 cs in
      (f : FourLine) × (ws : List Sent) × (d.display_impl ≡ some f)
      × ((update bus draw d).1 ≡ true)
      × ((update bus draw d).0.sent ≡ d.sent ++ ws)
      × ((receive s ws).ram (y / 8) x (y % 8)
          ≡ (if in_margin f x then false else get_pixel (drawn draw f) 128 64 (pos x) (pos y)))
update_lem bus draw setup cs s x y free started hx hy =
    let begun = (initialize bus draw setup st7565_display).0 in
    let d = calls bus draw begun cs in
    let r = calls-IsReady bus draw 128 64 begun cs (initialize-IsReady bus draw setup started) in
    let u = update-Screen bus draw d s x y free r hx hy in
    (r.impl, u.0, r.has_impl, ap (λ p. p.1) u.1, ap (λ p. p.0.sent) u.1, u.2)
