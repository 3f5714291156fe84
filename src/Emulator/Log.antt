-- ===== src/Emulator/Log.antt =====
-- The log keeps its last lines.
use fuelflux.Base.{
  ℕ, ◌+◌, ◌-◌, ◌≤◌, zero, suc, ◌≡◌, refl, sym, ap, append_nil, codes, ◌∙◌, arith, Bool, true, false,
  ltb, if◌then◌else◌, List, [], ◌∷◌, ◌++◌, Text, length, drop, length-append, append_assoc,
  drop-drop, Bool-cases, inl, inr, length-drop,
}
use fuelflux.Pixels.{count_from}
use fuelflux.Emulator.Ui.{
  Ui, max_log_lines, latest, append_log_line, initialize, render_input, render_log_area, log_line,
  log_block, lines_from, append_log_lines, write_at, move_cursor_to_input, render_log_rows,
  to_alternate_buffer, log_start_row, line_at, shown_index, write,
}

-- The last fifteen.
abbrev pub last_lines : List Text → List Text
last_lines ls = drop (length ls - max_log_lines) ls

dropped :
    (l : Text) (ls : List Text) (k : ℕ)
    → k ≡ suc (length ls - max_log_lines)
    → drop k (l ∷ ls) ≡ last_lines ls
dropped l ls k e = rw e refl

latest-last_lines : (ls : List Text) → latest ls ≡ last_lines ls
latest-last_lines [] = refl
latest-last_lines (l ∷ ls) = elim (Bool-cases (ltb max_log_lines (suc (length ls)))) [
  | inl long ↦
      let e : suc (length ls) - max_log_lines ≡ suc (length ls - max_log_lines) =
        ground (arith, long) in
      rw long (latest-last_lines ls ∙ sym (dropped l ls (suc (length ls) - max_log_lines) e))
  | inr short ↦
      let e : suc (length ls) - max_log_lines ≡ 0 = ground (arith, short) in rw (short, e) refl
]

drop-within : (k : ℕ) (xs ys : List Text) → k ≤ length xs → drop k xs ++ ys ≡ drop k (xs ++ ys)
drop-within zero xs ys h = refl
drop-within (suc k) [] ys h = absurd (omega (arith, h))
drop-within (suc k) (x ∷ xs) ys h = drop-within k xs ys (omega (arith, h))

last_lines-append : (xs ys : List Text) → last_lines (last_lines xs ++ ys) ≡ last_lines (xs ++ ys)
last_lines-append xs ys =
    let k = length xs - max_log_lines in
    let m = length (last_lines xs ++ ys) - max_log_lines in
    let e : k + m ≡ length (xs ++ ys) - max_log_lines =
      omega (arith, length-append xs ys, length-append (last_lines xs) ys, length-drop k xs) in
    ap (drop m) (drop-within k xs ys (omega arith))
    ∙ (drop-drop k m (xs ++ ys) ∙ ap (λ n. drop n (xs ++ ys)) e)

-- Drawing does not touch the log.
render_log_rows-log : (is : List ℕ) (u : Ui) → (render_log_rows is u).log_lines ≡ u.log_lines
unfolding write_at
render_log_rows-log [] u = refl
render_log_rows-log (i ∷ is) u =
    render_log_rows-log is
      (write_at (log_start_row u + i) 1 (line_at (shown_index u.log_lines i) u.log_lines) u)

render_log_area-log : (u : Ui) → (render_log_area u).log_lines ≡ u.log_lines
unfolding render_log_area
render_log_area-log u = render_log_rows-log (count_from 0 max_log_lines) u

render_input-log : (u : Ui) → (render_input u).log_lines ≡ u.log_lines
unfolding render_input write_at move_cursor_to_input
render_input-log u = refl

-- The log after these lines.
abbrev append_each : List Text → List Text → List Text
append_each log [] = log
append_each log (l ∷ ls) = append_each (latest (log ++ (l ∷ []))) ls

append_each-last_lines :
    (log ls : List Text) → last_lines log ≡ log → append_each log ls ≡ last_lines (log ++ ls)
append_each-last_lines log [] h = sym h ∙ ap last_lines (sym (append_nil log))
append_each-last_lines log (l ∷ ls) h =
    let xs = log ++ (l ∷ []) in
    let idem : last_lines (last_lines xs) ≡ last_lines xs =
      ap last_lines (sym (append_nil (last_lines xs)))
      ∙ (last_lines-append xs [] ∙ ap last_lines (append_nil xs)) in
    rw (latest-last_lines xs) (
      append_each-last_lines (last_lines xs) ls idem
      ∙ (last_lines-append xs ls ∙ ap last_lines (append_assoc log (l ∷ []) ls)))

append_each-append :
    (log xs ys : List Text) → append_each log (xs ++ ys) ≡ append_each (append_each log xs) ys
append_each-append log [] ys = refl
append_each-append log (x ∷ xs) ys = append_each-append (latest (log ++ (x ∷ []))) xs ys

short-last_lines : (ls : List Text) → length ls ≤ max_log_lines → last_lines ls ≡ ls
short-last_lines ls h = let e : length ls - max_log_lines ≡ 0 = omega (arith, h) in rw e refl

log_if :
    (b : Bool) (x y : Ui) (ls : List Text)
    → x.log_lines ≡ ls
    → y.log_lines ≡ ls
    → (if b then x else y).log_lines ≡ ls
log_if true x y ls h k = h
log_if false x y ls h k = k

alternate-log : (u : Ui) → (to_alternate_buffer u).log_lines ≡ u.log_lines
alternate-log u =
    log_if u.use_alternate_buffer (write (27 ∷ codes "[?1049h") u) u u.log_lines refl refl

initialize-log : (u : Ui) → (initialize u).log_lines ≡ u.log_lines
unfolding initialize
initialize-log u =
    let cleared = record (write ((27 ∷ codes "[2J") ++ (27 ∷ codes "[H")) (to_alternate_buffer u)) {
      initialized = true;
    } in
    log_if u.initialized u (render_input (render_log_area cleared)) u.log_lines refl
      (render_input-log (render_log_area cleared) ∙ (render_log_area-log cleared ∙ alternate-log u))

pub data LogCall : Type 0 where
  line : Text → LogCall
  block : Text → LogCall

abbrev pub log_call : Ui → LogCall → Ui
log_call u (line t) = log_line t u
log_call u (block t) = log_block t u

abbrev pub log_calls : Ui → List LogCall → Ui
log_calls u [] = u
log_calls u (c ∷ cs) = log_calls (log_call u c) cs

-- The lines of the calls, one after the other.
abbrev pub logged : List LogCall → List Text
logged [] = []
logged (line t ∷ cs) = t ∷ logged cs
logged (block t ∷ cs) = lines_from [] t ++ logged cs

append_log_lines-log :
    (ls : List Text) (u : Ui) → (append_log_lines ls u).log_lines ≡ append_each u.log_lines ls
unfolding append_log_line
append_log_lines-log [] u = refl
append_log_lines-log (l ∷ ls) u = append_log_lines-log ls (append_log_line l u)

drawn-log : (u : Ui) → (render_input (render_log_area u)).log_lines ≡ u.log_lines
drawn-log u = render_input-log (render_log_area u) ∙ render_log_area-log u

log_line-log : (t : Text) (u : Ui) → (log_line t u).log_lines ≡ append_each u.log_lines (t ∷ [])
unfolding log_line append_log_line
log_line-log t u =
    drawn-log (append_log_line t (initialize u))
    ∙ ap (λ ls. latest (ls ++ (t ∷ []))) (initialize-log u)

log_block-log :
    (t : Text) (u : Ui) → (log_block t u).log_lines ≡ append_each u.log_lines (lines_from [] t)
unfolding log_block
log_block-log t u =
    drawn-log (append_log_lines (lines_from [] t) (initialize u))
    ∙ (append_log_lines-log (lines_from [] t) (initialize u)
        ∙ ap (λ ls. append_each ls (lines_from [] t)) (initialize-log u))

log_calls-log :
    (u : Ui) (cs : List LogCall) → (log_calls u cs).log_lines ≡ append_each u.log_lines (logged cs)
log_calls-log u [] = refl
log_calls-log u (line t ∷ cs) =
    log_calls-log (log_line t u) cs ∙ ap (λ ls. append_each ls (logged cs)) (log_line-log t u)
log_calls-log u (block t ∷ cs) =
    log_calls-log (log_block t u) cs
    ∙ (ap (λ ls. append_each ls (logged cs)) (log_block-log t u)
        ∙ sym (append_each-append u.log_lines (lines_from [] t) (logged cs)))

-- After any calls to log lines and blocks, a log that was not too long holds the last fifteen of
-- its lines and of those of the calls, in their order.
pub log_calls_lem :
    (u : Ui) (cs : List LogCall)
    → length u.log_lines ≤ max_log_lines
    → (log_calls u cs).log_lines ≡ last_lines (u.log_lines ++ logged cs)
log_calls_lem u cs h =
    log_calls-log u cs
    ∙ append_each-last_lines u.log_lines (logged cs) (short-last_lines u.log_lines h)
