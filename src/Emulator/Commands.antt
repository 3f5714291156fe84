-- ===== src/Emulator/Commands.antt =====
-- The commands of ConsoleEmulator, and the line in which they are typed.
use fuelflux.Base.{
  ℕ, ◌*◌, suc, Bool, true, false, ◌&&◌, if◌then◌else◌, List, [], ◌∷◌, ◌++◌, Option, none, some,
  Text, codes, text_eq, is_empty, pos, negsuc,
}
use fuelflux.Types.{UserId, Volume, KeyCode}
use fuelflux.Numbers.{print_ℕ, to_string, fixed2, round_div, litre}
use fuelflux.UserCache.{UserCache, UserCacheEntry, get_entry, get_count}
use fuelflux.Emulator.Ui.{Ui, log_line, log_block}
use fuelflux.Emulator.Keyboard.{ConsoleKeyboard, inject_key}
use fuelflux.Emulator.CardReader.{ConsoleCardReader, simulate_card_presented}
use fuelflux.Emulator.Words.{next_word}

-- `real_card_reader` and `real_flow_meter` are the build's options. `presses`, `cards` and
-- `simulations` hold what the callbacks and the handler of the flow meter's simulation were given,
-- the first one first; the handler is given by its answers.
pub record Emulator : Type 0 where
  pub real_card_reader : Bool
  pub real_flow_meter : Bool
  pub ui : Ui
  pub keyboard : Option ConsoleKeyboard
  pub card_reader : Option ConsoleCardReader
  pub command_buffer : Text
  pub key_mode_requested : Bool
  pub user_cache : Option UserCache
  pub simulation_handler : Option (Bool → Bool)
  pub presses : List KeyCode
  pub cards : List UserId
  pub simulations : List Bool

abbrev pub say : Text → Emulator → Emulator
say t e = record e { ui = log_line t e.ui }

abbrev pub say_block : Text → Emulator → Emulator
say_block t e = record e { ui = log_block t e.ui }

abbrev pub pressed : Emulator → Option KeyCode → Emulator
pressed e none = e
pressed e (some code) = record e { presses = e.presses ++ (code ∷ []) }

abbrev pub press_on : Emulator → ℕ → Option ConsoleKeyboard → Emulator
press_on e c none = e
press_on e c (some k) = pressed e (inject_key k c)

unfoldable pub dispatch_key : ℕ → Emulator → Emulator
unfolding inject_key
dispatch_key c e = press_on e c e.keyboard

abbrev pub newline : Text
newline = 10 ∷ []

abbrev pub unlines : List Text → Text
unlines [] = []
unlines (t ∷ ts) = t ++ (newline ++ unlines ts)

abbrev pub help : Emulator → Text
help e = unlines (
    (codes "=== CONSOLE COMMANDS ===" ∷ [])
    ++ ((if e.real_card_reader
          then []
          else codes "card <user_id>     : Simulate card presentation" ∷ [])
        ++ ((codes "cache_count        : Show number of cached users"
              ∷ codes "cache_show <uid>   : Show cached info for specific UID"
              ∷ [])
            ++ ((if e.real_flow_meter
                  then codes "flow_sim <on|off>  : Toggle flow meter simulation mode" ∷ []
                  else [])
                ++ (codes "keymode            : Switch to key input mode"
                    ∷ codes "help               : Show this help"
                    ∷ codes "exit               : Exit application"
                    ∷ codes "========================"
                    ∷ codes "Command mode  : Type full commands, press Enter"
                    ∷ codes "Key mode      : Press individual keys (A, B, 0-9, *, #)"
                    ∷ codes "Tab key       : Switch between command and key input modes"
                    ∷ codes "   'A' stands for \"Начать\""
                    ∷ codes "   'B' stands for \"Отменить\""
                    ∷ codes "========================"
                    ∷ [])))))

pub print_help : Emulator → Emulator
print_help e = say_block (help e) e

pub print_available_commands : Emulator → Emulator
print_available_commands e =
    say
      (codes "Available commands: "
        ++ ((if e.real_card_reader then [] else codes "card, ")
            ++ (codes "cache_count, cache_show <uid>, "
                ++ ((if e.real_flow_meter then codes "flow_sim <on|off>, " else [])
                    ++ codes "keymode, help, exit"))))
      e

abbrev carded : Emulator → Option UserId × Option Text → Emulator
carded e (none, none) = e
carded e (none, some t) = say t e
carded e (some uid, none) = record e { cards = e.cards ++ (uid ∷ []) }
carded e (some uid, some t) = say t (record e { cards = e.cards ++ (uid ∷ []) })

abbrev card_on : Emulator → UserId → Option ConsoleCardReader → Emulator
card_on e uid none = say (codes "Card reader not available") e
card_on e uid (some r) = carded e (simulate_card_presented r uid)

pub simulate_card : UserId → Emulator → Emulator
simulate_card uid e = card_on e uid e.card_reader

-- A double in litres with two decimals.
abbrev pub amount : Volume → Text
amount (pos n) = fixed2 (round_div (100 * n) litre)
amount (negsuc n) = b'-' ∷ fixed2 (round_div (100 * suc n) litre)

abbrev pub entry_info : UserCacheEntry → Text
entry_info u =
    codes "UID: "
    ++ (u.uid
        ++ (newline
            ++ (codes "Role ID: "
                ++ (to_string u.role_id
                    ++ (newline
                        ++ (codes "Allowance: " ++ (amount u.allowance ++ codes " liters")))))))

abbrev pub cache_count_on : Emulator → Option UserCache → Emulator
cache_count_on e none = say (codes "Cache not available") e
cache_count_on e (some cache) =
    let (cache', count) = get_count cache in
    say (codes "Cache contains " ++ (print_ℕ count ++ codes " user entries"))
      (record e { user_cache = some cache' })

abbrev pub entry_shown : UserId → Option UserCacheEntry → Emulator → Emulator
entry_shown uid none e = say (codes "No cache entry found for UID: " ++ uid) e
entry_shown uid (some u) e = say_block (entry_info u) e

abbrev pub cache_show_on : Emulator → UserId → Option UserCache → Emulator
cache_show_on e uid none = say (codes "Cache not available") e
cache_show_on e uid (some cache) =
    let (cache', found) = get_entry cache uid in
    entry_shown uid found (record e { user_cache = some cache' })

abbrev pub simulation_answered : Bool → Bool → Emulator → Emulator
simulation_answered on true e =
    say (codes "Flow meter simulation " ++ (if on then codes "enabled" else codes "disabled")) e
simulation_answered on false e = say (codes "Flow meter simulation toggle failed") e

abbrev pub simulate_on : Emulator → Bool → Option (Bool → Bool) → Emulator
simulate_on e on none = say (codes "Flow meter simulation command not available") e
simulate_on e on (some handler) =
    simulation_answered on (handler on) (record e { simulations = e.simulations ++ (on ∷ []) })

abbrev pub flow_sim : Text → Emulator → Emulator
flow_sim mode e =
    if text_eq mode (codes "on")
    then simulate_on e true e.simulation_handler
    else if text_eq mode (codes "off")
    then simulate_on e false e.simulation_handler
    else say_block (unlines (codes "Usage: flow_sim <on|off>" ∷ []) ++ codes "Example: flow_sim on")
        e

abbrev pub unknown : Text → Emulator → Emulator
unknown cmd e =
    if is_empty cmd then e else print_available_commands (say (codes "Unknown command: " ++ cmd) e)

abbrev pub other_command : Text → Emulator → Emulator
other_command cmd e =
    if text_eq cmd (codes "help")
    then print_help e
    else if text_eq cmd (codes "exit")
    then say_block (codes "Shutting down ...") e
    else unknown cmd e

unfoldable pub process_command : Text → Emulator → Emulator
unfolding next_word print_help print_available_commands simulate_card
process_command command e =
    let (cmd, rest) = next_word command in
    let argument = (next_word rest).0 in
    if text_eq cmd (codes "keymode")
    then record e { key_mode_requested = true }
    else if text_eq cmd (codes "card")
    then (if is_empty argument
        then say_block
            (unlines (codes "Usage: card <user_id>" ∷ [])
              ++ codes "Example: card 2222-2222-2222-2222")
            e
        else simulate_card argument e)
    else if text_eq cmd (codes "cache_count")
    then cache_count_on e e.user_cache
    else if text_eq cmd (codes "cache_show")
    then (if is_empty argument
        then say_block
            (unlines (codes "Usage: cache_show <uid>" ∷ [])
              ++ codes "Example: cache_show 1000000000")
            e
        else cache_show_on e argument e.user_cache)
    else if e.real_flow_meter && text_eq cmd (codes "flow_sim")
    then flow_sim argument e
    else other_command cmd e
