-- ===== src/Mtc.antt =====
-- src/start_tracker.c: the MemExchange Tracker Communication protocol, by which the tracker processes
-- of different servers find a victim for a victor. `State` has the process and the messages, `Receiver`
-- and `Sender` the two threads, `Process` the process over time; the modules below those prove what they promise.
pub mod State
pub mod Receiver
pub mod Sender
pub mod Process
pub mod Soundness
