-- ===== src/Tests.antt =====
-- Tests of the model on concrete inputs, and each theorem at an input that meets its hypotheses.
mod Across
mod Answered
mod Fuzzing
mod Fixtures
mod Timeout
mod Reconnecting
mod Recovering
mod Accepting
mod Building
mod Sending
mod Connecting
mod Making
mod Serving
mod Usable
mod Balancing
mod Ending
mod Configuring
mod Reading
mod Deadline
mod Traffic
mod Routing
mod Unknown
mod Greeting
