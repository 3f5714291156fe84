-- ===== src/Lib.antt =====
-- FuelFlux: the controller of a fuel dispenser.
--
-- A user presents a card, chooses a tank and a volume, and fuels; an operator takes fuel in or out.
-- The controller owns the devices, a queue of events and a state machine; keys, cards, pulses and
-- timers post events, and the main loop feeds them to the machine, whose actions call the
-- controller back. Users are authorized by a backend, or from a cache in a local database if the
-- backend cannot be reached; then the reports are stored in a backlog that a worker sends later.
--
-- The files and the code that they model:
--   Types        include/types.h: enums and structs
--   Numbers      std::stoi, std::stod, std::to_string on the texts that occur, the rounding of
--                doubles, Controller::formatVolume
--   Devices      src/peripherals/pump.cpp, flow_meter.cpp, card_reader.cpp, keyboard.cpp,
--                display.cpp, in the build for real hardware
--   Sqlite       which statements of a connection are done: a parameter
--   Storage      src/message_storage.cpp: addBacklog is add_backlog, and so on
--   UserCache    src/user_cache.cpp: the active and the standby tables
--   Backend      include/backend.h: the interface IBackend, a record of operations
--   Executor     src/bounded_executor.cpp: the queue, the workers' rounds and the shutdown
--   Url          src/url_utils.cpp: ExtractHostFromUrl
--   Modem        src/backend.cpp, the helpers of the build with a modem: IsLocalhost,
--                ExtractPortFromUrl, SetupDnsResolution
--   Resolver     src/cares_resolver.cpp: Resolve, its cache and its waiting loop
--   Pixels       get_pixel and set_pixel of src/display/four_line_display_impl.cpp; Shapes and Font
--                are the lines, rectangles and text of src/display/graphics.cpp
--   FourLine     src/display/four_line_display_impl.cpp: layout, rendering and margins; Fonts draws
--                a line with FtText
--   Panel        include/display/lcd_driver.h: the drivers' interface; Panel/St7565 is
--                src/display/st7565.cpp, Panel/Ili9488 and Panel/Rgb are src/display/ili9488.cpp
--   HardwareDisplay  src/display/hardware_display.cpp, st7565_display.cpp, ili9488_display.cpp
--   ConsoleDisplay   src/display/console_display.cpp
--   Emulator     src/console_emulator.cpp: Ui is ConsoleUi, Keyboard, CardReader and Pump the
--                emulated devices, Words, Commands and Line the command line, Dispatcher the thread
--   FtText       src/display/ft_text.cpp: the UTF-8 decoder and the drawing of glyphs
--   Json         the values of nlohmann::json and the accessors in use
--   Client       src/backend_base.cpp and include/session.h: Client/Session is Authorize and
--                Deauthorize, Reports is Refuel, Intake and the payload calls, Fetch the pages of
--                cards and tanks, Http HttpRequestWrapper of src/backend.cpp and
--                include/backend_utils.h, Background the request that the executor sends,
--                Interface the client as an IBackend
--   CacheManager src/cache_manager.cpp: Population is PopulateCache, Schedule the thread
--   Backlog      src/backlog_worker.cpp: processOnce, and the loop as a number of rounds
--   Services     the backend, JSON printing and time formatting, as the controller uses them
--   Controller   src/controller.cpp: the state in Controller; Controller/Flow the pump and flow
--                callbacks, Session the limits and the end of a session, Authorization
--                requestAuthorization, Reports the log functions, Screen the messages of
--                src/state_machine.cpp, Peripherals recovery, Keys the keyboard
--   Machine      src/state_machine.cpp: Table the transitions, Actions the actions, Process
--                processEvent, reset and the timeout poll
--   System       the body of Controller::run and the threads around it, as steps in any order;
--                Lifecycle is Controller::initialize and shutdown
--   Main         src/main.cpp: the loop that starts the controller again after an error
--   Examples     concrete data, and the theorems at concrete inputs
--
-- The state of a component is a record, and a method is a function from the state to the state,
-- with its result beside it. Pointers that may be null are options. A double is an integer multiple
-- of 2^-1074, so comparisons are exact and each operation rounds as the processor does. Callbacks
-- that nest are run with a depth: stopping the pump uses two levels, and more change nothing.
-- Printing a number uses as much fuel as the number itself and one more. The threads take turns: a
-- handler runs as a whole between the steps of the others.
--
-- The page loops of PopulateCache run on fuel: a list of n entries needs n + 1 rounds at most. The
-- reads of running_ are an arbitrary sequence of answers, so that a stop may come at any of them.
-- The waiting loop of Resolve runs on fuel: it ends by the round in which the clock reaches the
-- overall timeout. The loop of draw_utf8 needs a round for each byte at most. In the panel drivers
-- dimensions are natural numbers, and their products are taken to fit an int.
--
-- Parameters: the backend, as the controller and the cache manager see it; libcurl's answer to each
-- request; reading, printing and parsing of JSON; SQLite's answer to each statement; localtime_r and
-- mktime; c-ares, select() and inet_pton; the faces and glyphs of FreeType; what the port expander
-- reads, and which transfers to a panel throw; the printed time.
--
-- Not modelled: the other options of libcurl, the system calls for GPIO, SPI, I2C and NFC, terminal
-- attributes, the logger, the set-up of the process, and the start and end of the threads. How many
-- pulses a round of the flow meter's simulation adds is an argument. Infinities, NaN and overflow of
-- doubles do not occur in the model, and memory does not run out.
pub mod Base
pub mod Types
pub mod Numbers
pub mod Devices
pub mod Sqlite
pub mod Storage
pub mod UserCache
pub mod Backend
pub mod Executor
pub mod Url
pub mod Modem
pub mod Resolver
pub mod Panel
pub mod Pixels
pub mod FourLine
pub mod HardwareDisplay
pub mod ConsoleDisplay
pub mod Emulator
pub mod FtText
pub mod Json
pub mod Client
pub mod CacheManager
pub mod Backlog
pub mod Services
pub mod Controller
pub mod Machine
pub mod System
pub mod Main
pub mod Examples
