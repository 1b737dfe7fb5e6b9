-- ===== src/Tests.antt =====
-- The theorems at concrete inputs, with an operating system that is a table of registrations.
mod Machine
mod Scenes
mod Handles
mod Uuids
mod Epolls
mod Links
mod Ends
mod Dials
mod Entries
mod Leaks
mod Phases
mod Stops
mod Texts
mod Tls
mod Builds
mod Serves
mod Interleavings
mod Owners
mod Sessions
mod Calls
mod Turns
mod Streams
