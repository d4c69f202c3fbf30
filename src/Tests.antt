-- ===== src/Tests.antt =====
-- Runs of the models on small inputs, and the theorems at inputs where their hypotheses hold.
mod Activities
mod Graphs
mod Readinesses
mod States
mod Evidences
mod Gatings
mod Scopes
mod Policies
mod Recordings
mod Records
mod Transactions
mod Commits
mod Transitions
