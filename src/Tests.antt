-- ===== src/Tests.antt =====
-- The theorems at concrete inputs, and runs of the code on them.
mod Tables
mod Server
mod Once
mod Trip
mod Client
mod Logger
mod Table
mod Persist
