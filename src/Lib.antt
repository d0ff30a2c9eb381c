-- ===== src/Lib.antt =====
-- rob320-p1: a robot is driven from a keyboard. The program teleop_keyboard (src/teleop_keyboard/
-- teleop_keyboard.cpp) turns keys into Twist2DStamped commands and writes each as a frame, its size in four
-- bytes and then its encoding; the program mbot_driver (src/mbot_driver/mbot_driver.cpp) reads the frames from
-- its input and hands the commands to the robot. Both use the messages of include/rix/msg, which rest on
-- include/rix/msg/serialization.hpp, and the times of src/rix/util/time.cpp; each stops on a notification.
--
-- Base: numbers, lists, bytes and signed integers that all parts share.
-- Memory: buffers with an offset (uint8_t *dst, size_t &offset) and sources (const uint8_t *src, size_t size,
--   size_t &offset). An access outside of one is undefined behaviour in C++ and a fault here. Memory.Readers and
--   Memory.Delivery hold the contracts of readers, and of a writer with its reader.
-- Serialization: serialization.hpp, in Size, Serialize and Deserialize under the functions' own names; an
--   arithmetic type is its width in bytes, and a value its bit pattern. The machine is little-endian. Layout,
--   Lengths, RoundTrip and Bounds are about the encodings, their lengths, reading them and reading any bytes.
-- Message: the class Message (message.hpp), and the contract of a message over its encoding.
-- Messages: a module for each class of include/rix/msg/standard and include/rix/msg/geometry.
-- Util: Time and Duration of src/rix/util/time.cpp, with the roundings of std::chrono in Util.Chrono. A count of
--   nanoseconds is an integer; where a sum leaves the range of an int64_t the result is `none`.
--   ArgumentValues and ArgumentParser: src/rix/util/argument_parser.cpp with its header. argv behind the offset is
--   the list of the arguments that are left, std::unordered_map a list of entries (Base.Dict), double an abstract
--   type with std::stof. The loop over the options is on fuel, a unit for an option, so that as much fuel as
--   arguments is enough. ArgumentParser.Keys, Returns and Built are about the arguments that a parser knows,
--   Texts and Settings about command lines.
--   Doubles has the constructors and the factors of type double of the times, over a record of operations of
--   double, and Rate the classes Timer and Rate, over a clock (Rate.Clock) that gives a reading and a state and
--   that sleeps. Rate.Pace is about loops that sleep; what the standard says of the clock is a hypothesis (Keeps).
--   Log is include/rix/util/log.hpp: its stream buffers, its clock and its files are the parameter Log.Host,
--   and what is inserted is a text. TimeText is Time::to_string over std::put_time, and ArgumentParser.Help
--   is the help text.
-- Io: what a loop meets at its input and its notification, as lists: the answers of `read` (bytes, EINTR, EAGAIN,
--   an error) and of `wait`. Where the answers run out, the loop waits.
-- Driver: MBotDriver::spin, with its lambdas send_stop, notif_ready and read_exact. The commands that the robot
--   was given are a list. The loop is on fuel, a unit for a round: each round but the last takes four bytes at
--   least, so that more fuel than bytes is enough.
--   Driver.Live is the same function on the objects that it calls, records of operations over a shared state
--   (Io.Interfaces): a unit of fuel is a round, and a read within a read_exact. Mirrors relates the two by the
--   calls that a run makes (Event), and Prompt is about a notification that becomes ready.
-- Teleop: TeleopKeyboard::spin, in Key (from a key to a command), Output (write_exact) and Loop. The loop is
--   recursion on the events of its input. The arithmetic of double is a record of operations.
-- Pipeline: the output of the first loop as the input of the second.
-- MBot: checksum and encode_msg of include/mbot/messages.hpp, and MBot::drive and MBot::timesync of
--   src/mbot/mbot.cpp in MBot.Drive and MBot.Timesync; the packed structs that they send are their bytes, and the
--   loop of timesync is recursion on what its rounds find. MBot.Receive is a receiver, by the layout of a packet, with fuel for
--   each packet. MBot.Line has drive and timesync on threads under their mutex, as steps on the bytes of the line.
--   MBot.Life has the constructor and the destructor; the calls on the terminal are the parameter Terminal, and
--   the thread is the rounds of timesync that it makes up to its end.
-- Ipc: src/rix/ipc, in File, Pipe, Fifo and Signal after file.cpp, pipe.cpp, fifo.cpp and signal.cpp. The system
--   calls are the parameter Kernel; what POSIX says of descriptors (IsPosix), of flags (Flags.KeepsFlags) and of a
--   pipe (Signal.Waits.IsPipe) are hypotheses. Objects has a program's File objects as steps on a table of their
--   descriptors, and Ownership its invariant; Signal.Program has its Signal objects as steps on the table of the
--   class, and Signal.Managed its invariant. The loop in wait that empties the pipe is on fuel, a unit for a
--   read: each read but the last takes a byte at least, so that more fuel than bytes in the pipe is enough.
-- Programs: the functions main of src/teleop_keyboard/main.cpp and src/mbot_driver/main.cpp, in Keyboard and
--   MBotDriver, and both in a pipe in Whole. MBotDriver.Live is the second on its own File, Signal and MBot,
--   with Live.Stops about its end and Live.Interrupt about a SIGINT.
-- Tests: the theorems at concrete inputs.
--
-- Not modelled: the mutex of Log, for which a date is a parameter; the library calls that start and join the
-- thread of MBot; the _serialize and _deserialize functions of messages.hpp, copies of packed structs that no
-- program calls. The memory that a vector allocates is taken to be there, and a buffer
-- ends 2 ^ 36 bytes before the end of the address space at least, so that an offset does not wrap.
pub mod Base
pub mod Memory
pub mod Message
pub mod Serialization
pub mod Messages
pub mod Util
pub mod Io
pub mod Driver
pub mod Teleop
pub mod Pipeline
pub mod MBot
pub mod Ipc
pub mod Programs
pub mod Tests
