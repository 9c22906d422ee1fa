-- ===== src/Tests.antt =====
-- Runs of the modelled code on concrete inputs, and the theorems at such inputs.
mod Sim
mod MotionTests
mod StubTests
mod HardwareTests
mod QueueTests
mod TextTests
mod BatchTests
mod NetTests
mod HandlerTests
mod ServerTests
mod SharedStepTests
mod SettingsTests
mod StatusTests
mod QueryTests
mod PresenceTests
mod ClientTests
