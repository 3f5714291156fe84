-- ===== src/Devices/Keyboard/Once.antt =====
-- A key that is held is reported once.
use fuelflux.Base.{
  ℕ, ◌+◌, ◌-◌, ◌*◌, ◌/◌, ◌%◌, ◌^◌, ◌<◌, zero, suc, ◌≡◌, refl, arith, Bool, true, false, ◌==◌,
  if◌then◌else◌, List, [], ◌∷◌, ◌++◌, Option, none, some, All, ◌&&◌, ap, sym, ◌∙◌, append_nil,
  ==_iff,
}
use fuelflux.Types.{KeyCode}
use fuelflux.Devices.Keyboard.Scan.{Expander, Found, scan_key, char_to_key_code, keymap, key_in_row}
use fuelflux.Devices.Keyboard.Polling.{Polling, Round, on_scan, report, poll_round, poll}

-- The wires of the key in row r and column c, held alone: it pulls its column low while its row is
-- driven. The four bits of the rows are any number below 16.
abbrev pub held : ℕ → ℕ → (ℕ → ℕ) → Expander
held r c low = record {
  read_row = λ i. some ((if i == r then 15 - 2 ^ c else 15) * 16 + low i);
  released = true;
}

key_in_row-held :
    (r c n : ℕ) → c < 4 → n < 16 → key_in_row r ((15 - 2 ^ c) * 16 + n) ≡ some (keymap r c)
key_in_row-held r zero n h k =
    let e : (224 + n) / 16 % 16 * 16 ≡ 224 = omega (arith, k) in rw e refl
key_in_row-held r (suc zero) n h k =
    let e : (208 + n) / 16 % 16 * 16 ≡ 208 = omega (arith, k) in rw e refl
key_in_row-held r (suc (suc zero)) n h k =
    let e : (176 + n) / 16 % 16 * 16 ≡ 176 = omega (arith, k) in rw e refl
key_in_row-held r (suc (suc (suc zero))) n h k =
    let e : (112 + n) / 16 % 16 * 16 ≡ 112 = omega (arith, k) in rw e refl
key_in_row-held r (suc (suc (suc (suc c)))) n h k = absurd (omega (arith, h))

key_in_row-idle : (r n : ℕ) → n < 16 → key_in_row r (240 + n) ≡ none
key_in_row-idle r n k = let e : (240 + n) / 16 % 16 * 16 ≡ 240 = omega (arith, k) in rw e refl

-- The scan finds the key that is held.
scan_key-held :
    (r c : ℕ) (low : ℕ → ℕ)
    → r < 4
    → c < 4
    → ((i : ℕ) → low i < 16)
    → scan_key (held r c low) ≡ some (some (keymap r c))
unfolding scan_key
scan_key-held zero c low h k n = rw (key_in_row-held 0 c (low 0) k (n 0)) refl
scan_key-held (suc zero) c low h k n =
    rw (key_in_row-idle 0 (low 0) (n 0), key_in_row-held 1 c (low 1) k (n 1)) refl
scan_key-held (suc (suc zero)) c low h k n =
    rw
      (
        key_in_row-idle 0 (low 0) (n 0),
        key_in_row-idle 1 (low 1) (n 1),
        key_in_row-held 2 c (low 2) k (n 2),
      )
      refl
scan_key-held (suc (suc (suc zero))) c low h k n =
    rw
      (
        key_in_row-idle 0 (low 0) (n 0),
        key_in_row-idle 1 (low 1) (n 1),
        key_in_row-idle 2 (low 2) (n 2),
        key_in_row-held 3 c (low 3) k (n 3),
      )
      refl
scan_key-held (suc (suc (suc (suc r)))) c low h k n = absurd (omega (arith, h))

abbrev no_key : Option Found → Bool
no_key (some none) = true
no_key (some (some k)) = false
no_key none = false

-- Both scans of the round see no key.
abbrev pub is_release : Round → Bool
is_release r = r.input_enabled && (no_key (scan_key r.first) && no_key (scan_key r.second))

abbrev Waits : Polling → Polling → Type 0
Waits p q = (q.waiting_release ≡ true) × (q.reported ≡ p.reported)

on_scan-Waits :
    (p : Polling) (r : Round) (a b : Option Found)
    → p.waiting_release ≡ true
    → (no_key a && no_key b) ≡ false
    → scan_key r.second ≡ b
    → Waits p (on_scan r true a p)
on_scan-Waits p r none b w h e = (w, refl)
on_scan-Waits p r (some (some k)) b w h e = (w, refl)
on_scan-Waits p r (some none) none w h e = rw e (w, refl)
on_scan-Waits p r (some none) (some none) w h e = cc
on_scan-Waits p r (some none) (some (some k)) w h e = rw e (w, refl)

enabled_not_release :
    (r : Round)
    → r.input_enabled ≡ true
    → is_release r ≡ false
    → (no_key (scan_key r.first) && no_key (scan_key r.second)) ≡ false
enabled_not_release r e h =
    ap (λ b. b && (no_key (scan_key r.first) && no_key (scan_key r.second))) (sym e) ∙ h

-- The codes to report.
abbrev pub keys : Option KeyCode → List KeyCode
keys none = []
keys (some k) = k ∷ []

pick :
    (p x y : Polling) (b : Bool)
    → (b ≡ true → Waits p x)
    → (b ≡ false → Waits p y)
    → Waits p (if b then x else y)
pick p x y true f g = f refl
pick p x y false f g = g refl

of_waiting :
    (p : Polling) (r : Round) (v : Bool)
    → v ≡ true
    → Waits p (on_scan r true (scan_key r.first) p)
    → Waits p (on_scan r v (scan_key r.first) p)
of_waiting p r true e h = h
of_waiting p r false e h = cc

poll_round-Waits :
    (p : Polling) (r : Round)
    → p.waiting_release ≡ true
    → is_release r ≡ false
    → Waits p (poll_round p r)
unfolding poll_round
poll_round-Waits p r w h =
    let scanned = on_scan r p.waiting_release (scan_key r.first) p in
    pick p p (if r.input_enabled then scanned else p) p.failed (λ over. (w, refl))
      (λ on.
        pick p scanned p r.input_enabled
          (λ enabled. of_waiting p r p.waiting_release w (
            on_scan-Waits p r (scan_key r.first) (scan_key r.second) w
              (enabled_not_release r enabled h) refl))
          (λ disabled. (w, refl)))

-- Until a release nothing is reported.
poll-Waits :
    (p : Polling) (rs : List Round)
    → p.waiting_release ≡ true
    → All (λ r. is_release r ≡ false) rs
    → (poll p rs).reported ≡ p.reported
unfolding poll
poll-Waits p [] w h = refl
poll-Waits p (r ∷ rs) w h =
    let k = poll_round-Waits p r w h.0 in poll-Waits (poll_round p r) rs k.0 h.1 ∙ k.1

reported-report :
    (p : Polling) (o : Option KeyCode) → (report true o p).reported ≡ p.reported ++ keys o
reported-report p none = sym (append_nil p.reported)
reported-report p (some k) = refl

-- A round in which both scans find a key.
poll_round-press :
    (p : Polling) (r : Round) (key : ℕ)
    → p.failed ≡ false
    → p.waiting_release ≡ false
    → r.input_enabled ≡ true
    → r.callback ≡ true
    → scan_key r.first ≡ some (some key)
    → scan_key r.second ≡ some (some key)
    → ((poll_round p r).waiting_release ≡ true)
      × ((poll_round p r).reported ≡ p.reported ++ keys (char_to_key_code key))
unfolding poll_round
poll_round-press p r key on ready enabled set a b =
    let same = (==_iff key key).1 refl in
    rw (on, enabled, ready, a, b, same, set)
      (
        refl,
        reported-report (record p { waiting_release = false; failed = false })
            (char_to_key_code key),
      )

-- A key that is held alone through a round, with the input enabled, no release awaited and a
-- callback set, is reported with its code, if it has one, and nothing more is reported in the
-- rounds after it, whatever is held then, until both scans of a round see no key.
pub poll_lem :
    (p : Polling) (r : Round) (rs : List Round) (row column : ℕ) (low low' : ℕ → ℕ)
    → p.failed ≡ false
    → p.waiting_release ≡ false
    → r.input_enabled ≡ true
    → r.callback ≡ true
    → r.first ≡ held row column low
    → r.second ≡ held row column low'
    → row < 4
    → column < 4
    → ((i : ℕ) → low i < 16)
    → ((i : ℕ) → low' i < 16)
    → All (λ later. is_release later ≡ false) rs
    → (poll p (r ∷ rs)).reported ≡ p.reported ++ keys (char_to_key_code (keymap row column))
unfolding poll
poll_lem p r rs row column low low' on ready enabled set a b hr hc n n' quiet =
    let k =
      poll_round-press p r (keymap row column) on ready enabled set
        (ap scan_key a ∙ scan_key-held row column low hr hc n)
        (ap scan_key b ∙ scan_key-held row column low' hr hc n') in
    poll-Waits (poll_round p r) rs k.0 quiet ∙ k.1
