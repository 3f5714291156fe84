-- ===== src/HardwareDisplay/Ready.antt =====
-- A display of the monochrome panel that was initialized shows what its lines say.
use fuelflux.Base.{
  ℕ, ◌≡◌, refl, arith, Bool, true, false, if◌then◌else◌, List, [], ◌∷◌, Option, none, some, Text,
  not, ◌∙◌,
}
use fuelflux.FourLine
use fuelflux.FourLine.{Draw, FourLine, drawn, new_four_line}
use fuelflux.Panel.{Sent}
use fuelflux.Panel.St7565.{st7565}
use fuelflux.HardwareDisplay.{
  HardwareDisplay, Bus, update, set_line, clear_all, send_any, send_some,
}

-- The drawing and the driver of a panel of this size are there.
pub record IsReady (w h : ℕ) (d : HardwareDisplay) : Type 0 where
  pub impl : FourLine
  pub has_impl : d.display_impl ≡ some impl
  pub has_lcd : d.lcd ≡ some (st7565 w h)
  pub on : impl.initialized ≡ true
  pub wide : impl.width ≡ w
  pub high : impl.height ≡ h

-- The calls of a client.
pub data Call : Type 0 where
  put : ℕ → Text → Call
  clear : Call
  refresh : Call

module _ (bus : Bus) (draw : Draw) where
  abbrev pub call : HardwareDisplay → Call → HardwareDisplay
  call d (put i t) = set_line d i t
  call d clear = clear_all d
  call d refresh = (update bus draw d).0

  abbrev pub calls : HardwareDisplay → List Call → HardwareDisplay
  calls d [] = d
  calls d (c ∷ cs) = calls (call d c) cs

puts_sizes :
    (f : FourLine) (i : ℕ) (t : Text)
    → ((FourLine.puts f i t).initialized ≡ f.initialized)
      × ((FourLine.puts f i t).width ≡ f.width)
      × ((FourLine.puts f i t).height ≡ f.height)
unfolding FourLine.puts
puts_sizes f i t = ground arith

render_sizes :
    (draw : Draw) (f : FourLine)
    → ((FourLine.render draw f).initialized ≡ f.initialized)
      × ((FourLine.render draw f).width ≡ f.width)
      × ((FourLine.render draw f).height ≡ f.height)
unfolding FourLine.render
render_sizes draw f = of_test f.initialized
  where
    shown : FourLine
    shown = record f { framebuffer = FourLine.clear_horizontal_margins f (drawn draw f) }

    of_test :
        (b : Bool)
        → ((if not b then f else shown).initialized ≡ f.initialized)
          × ((if not b then f else shown).width ≡ f.width)
          × ((if not b then f else shown).height ≡ f.height)
    of_test true = (refl, refl, refl)
    of_test false = (refl, refl, refl)

pub set_line-IsReady :
    (w h : ℕ) (d : HardwareDisplay) (i : ℕ) (t : Text)
    → IsReady w h d
    → IsReady w h (set_line d i t)
unfolding set_line FourLine.puts
set_line-IsReady w h d i t r =
    let k = puts_sizes r.impl i t in
    record {
      impl = FourLine.puts r.impl i t;
      has_impl = rw r.has_impl refl;
      has_lcd = rw r.has_impl r.has_lcd;
      on = k.0 ∙ r.on;
      wide = k.1 ∙ r.wide;
      high = k.2 ∙ r.high;
    }

pub clear_all-IsReady : (w h : ℕ) (d : HardwareDisplay) → IsReady w h d → IsReady w h (clear_all d)
unfolding clear_all FourLine.clear_all
clear_all-IsReady w h d r = record {
  impl = FourLine.clear_all r.impl;
  has_impl = rw r.has_impl refl;
  has_lcd = rw r.has_impl r.has_lcd;
  on = r.on;
  wide = r.wide;
  high = r.high;
}

send-IsReady :
    (bus : Bus) (w h : ℕ) (d : HardwareDisplay) (ws : Option (List Sent))
    → IsReady w h d
    → IsReady w h (send_any bus d ws).0
send-IsReady bus w h d none r = r
send-IsReady bus w h d (some ws) r = of_answer (bus ws)
  where
    of_answer : (o : Option ℕ) → IsReady w h (send_some d ws o).0
    of_answer none = record {
      impl = r.impl;
      has_impl = r.has_impl;
      has_lcd = r.has_lcd;
      on = r.on;
      wide = r.wide;
      high = r.high;
    }
    of_answer (some n) = record {
      impl = r.impl;
      has_impl = r.has_impl;
      has_lcd = r.has_lcd;
      on = r.on;
      wide = r.wide;
      high = r.high;
    }

pub update-IsReady :
    (bus : Bus) (draw : Draw) (w h : ℕ) (d : HardwareDisplay)
    → IsReady w h d
    → IsReady w h (update bus draw d).0
unfolding update
update-IsReady bus draw w h d r =
    let k = render_sizes draw r.impl in
    let f = FourLine.render draw r.impl in
    rw (r.has_impl, r.has_lcd)
      (send-IsReady bus w h (record d { display_impl = some f; lcd = some (st7565 w h) })
        ((st7565 w h).set_framebuffer f.framebuffer)
        (record {
          impl = f;
          has_impl = refl;
          has_lcd = refl;
          on = k.0 ∙ r.on;
          wide = k.1 ∙ r.wide;
          high = k.2 ∙ r.high;
        }))
