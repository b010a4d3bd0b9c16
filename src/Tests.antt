-- ===== src/Tests.antt =====
-- Tests of the modules at concrete inputs.
mod Json
mod HeapPages
mod WalFrames
mod Versions
mod Names
mod Journal
mod Pool
mod Trees
mod Commits
mod Dictionary
