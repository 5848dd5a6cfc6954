-- ===== src/Examples.antt =====
-- Tests of the model at concrete data, and each theorem at an input where its hypotheses hold.
mod Booting
mod Ending
mod Forking
mod Memory
mod Processes
mod Scheduling
mod Searching
mod Pointing
mod Printing
mod Reaching
mod Reading
mod Starting
mod Trapping
mod Twice
mod Typing
mod Vectors
mod Waiting
