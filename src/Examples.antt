-- ===== src/Examples.antt =====
-- The parts of the program run on concrete inputs.
mod Tracker
mod Registry
mod Consumer
mod Ordering
mod Publishing
mod Working
mod Configuring
mod Reading
mod Serving
mod Storing
mod Sending
mod Trees
mod Understanding
