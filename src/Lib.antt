-- ===== src/Lib.antt =====
-- Kinetic Mirror Matrix, the firmware that drives the stepper motors of a matrix of mirrors: a
-- model of its core and the theorems about it.
--
-- The parts of the program and how they meet. A line of text from the serial console or from MQTT
-- is parsed into commands (lib/MotorControl/src/command). The handler of the motor commands reads
-- the arguments, asks the estimates of MotionKinematics.cpp how long a motion takes, compares it
-- with the thermal budget of each motor, and calls a motor controller through the interface
-- MotorController.h. An operation that starts is registered with the completion tracker
-- (lib/transport), which sends its DONE when the motors have stopped. Every answer is a line, and
-- an event that the dispatcher gives to the sinks of the transports. The controllers keep the
-- state of the motors: the one of the native build lets a move end at its estimated time, the one
-- of the hardware drives an adapter and a shift register. Their `tick` does the bookkeeping of the
-- budgets. On the ESP32 the adapter below the hardware controller drives all motors with one
-- pulse generator. The onboarding joins a Wi-Fi network or opens an access point with a portal. The
-- MQTT client connects to the broker of the settings, tells it that the node is there, and sends
-- the messages of a queue with a bound: the answers to commands, and the snapshots of the motors
-- that the status publisher makes.
--
-- Which file models what. Each definition has the name of its function in snake case.
--   Timing         include/MotorControl/SharedStepTiming.h and SharedStepGuards.h: the periods of
--                  the shared STEP signal and the window in which a direction may flip.
--   Kinematics     lib/MotorControl/src/MotionKinematics.cpp: the estimates of a move and a homing.
--   Motor          MotorController.h and MotorControlConstants.h: the state of a motor, its
--                  thermal budget, and the masks that select motors (Motor/Mask).
--   Controller     MotorController.h: the interface, a record of operations that the handlers
--                  take as a parameter; Stub/Interface fills it with the stub controller.
--   Stub           lib/MotorControl/src/StubMotorController.cpp.
--   Hardware       lib/MotorControl/src/HardwareMotorController.cpp: Hardware/Commands holds the
--                  commands, Hardware/Tick the tick with the barrier of the homing legs.
--   Text           lib/MotorControl/src/command/CommandUtils.cpp.
--   Commands       lib/MotorControl/src/command/CommandParser.cpp.
--   Handlers       lib/MotorControl/src/command/CommandHandlers.cpp, the class MotorCommandHandler:
--                  WAKE and SLEEP here, what MOVE and HOME read in Handlers/Requests, their checks
--                  of the budget in Handlers/Admission, the two in Handlers/Motion, and the
--                  dispatch in Handlers/Execute. HELP, STATUS, GET and SET are in Handlers/Query,
--                  the MQTT commands in Handlers/MqttConfig.
--   Batch          CommandBatchExecutor.cpp and CommandRouter.cpp beside it: the commands of one
--                  line, over handlers that are a parameter.
--   Transport      lib/transport/src: the lines and the catalog of errors, Transport/Lines
--                  their text, Transport/Events the events, Transport/Dispatcher the sinks,
--                  Transport/Completion the tracker.
--   MessageIds     lib/transport/src/MessageId.cpp: the ids of messages.
--   SharedStep     src/drivers/Esp32/SharedStepAdapterEsp32.cpp: the motion adapter of the ESP32,
--                  with the ramp in SharedStep/Ramp, the start of a move in SharedStep/Moves, and
--                  the change of a direction and the progress in SharedStep/Updates.
--   Net            lib/net_onboarding/src/NetOnboarding.cpp: the Wi-Fi onboarding and its LED, the
--                  operations in Net/Operations, the handlers of the portal in Net/Portal, and the
--                  platform of the native build, PlatformStub.cpp, in Net/StubPlatform.
--   MqttServer     lib/mqtt_commands/src/MqttCommandServer.cpp: the answers kept for duplicates, the
--                  events without a stream in MqttServer/Waiting, those of streams in
--                  MqttServer/Events, and the responses in MqttServer/Dispatch.
--   PublishQueue   lib/mqtt_presence/include/mqtt/PublishQueuePolicy.h.
--   Presence       lib/mqtt_presence/src/MqttPresenceClient.cpp: what the node tells the broker; the
--                  connection, over a library that is a parameter, in Presence/Client.
--   ConfigStore    lib/mqtt_config/src/MqttConfigStore.cpp: the settings of the broker, and the
--                  preferences that keep them in ConfigStore/Preferences.
--   StatusPublisher  lib/mqtt_status/src/MqttStatusPublisher.cpp: the snapshots of the motors.
--   Prelude        shared names, Boolean tests, lists over native numbers, integers, words.
--   Tests          runs at concrete inputs, and the theorems at such inputs.
--
-- Conventions. A state is a record and an operation a function on it; a loop over an array is a
-- structural recursion over a list. `uint32_t` numbers are natural numbers taken modulo 2 ^ 32;
-- `int` and `long` are integers, without the overflow that is undefined in the source. A text is
-- the list of its bytes. `long` is 32 bits wide, as on the ESP32, where ParseInt reads one. The
-- hardware controller is modelled in its native build, where `ARDUINO` is not defined; the calls
-- that leave it are logged in order. The motion adapter (include/hal/FasAdapter.h), the controller
-- behind a handler, the sequence of message ids, and what a tracker is told of the controllers are
-- parameters. So is the platform of the onboarding, which is modelled in its build for a device,
-- and so are the MQTT library, `std::hash`, and the texts of the payloads that the command server
-- sends. The settings of the broker are modelled in the native build. An operation of the
-- onboarding or of the ESP32's adapter reads the clock once. `USE_SHARED_STEP` is an argument, so
-- both builds are covered.
--
-- Fuel. The exponential search of `isqrt_ceil` has fuel n and its binary search the upper bound
-- and one; a theorem bounds the result, so the fuel suffices. `to_string` and the digits of a
-- snapshot have the number and one as fuel, and a number has no more digits. The loop that draws a
-- message id has fuel, with a theorem on how much is enough. All other recursion is structural.
--
-- Not modelled: the preferences of the device and the values of secrets.h, the texts of the
-- payloads of the command server and what it reads of them, the web server and the JSON text of
-- the portal, the handler of the network commands, the serial console, the registers
-- of the ESP32's peripherals, and the cache of the dispatcher, whose size is fixed to 0.
pub mod Batch
pub mod Commands
pub mod ConfigStore
pub mod Controller
pub mod Handlers
pub mod Hardware
pub mod Kinematics
pub mod MessageIds
pub mod Motor
pub mod MqttServer
pub mod Net
pub mod Prelude
pub mod Presence
pub mod PublishQueue
pub mod SharedStep
pub mod StatusPublisher
pub mod Stub
pub mod Tests
pub mod Text
pub mod Timing
pub mod Transport
