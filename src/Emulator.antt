-- ===== src/Emulator.antt =====
-- src/console_emulator.cpp, in the build that is not for Windows: Ui is the terminal with its log
-- and its input line, Keyboard, CardReader and Pump are the emulated devices, Commands the commands
-- and the line that is typed, and Dispatcher the thread that reads the terminal.
pub mod Ui
pub mod Log
pub mod Keyboard
pub mod CardReader
pub mod Pump
pub mod Words
pub mod Commands
pub mod Line
pub mod Dispatcher
pub mod Typed
