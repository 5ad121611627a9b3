-- ===== src/Tests.antt =====
-- Runs of the model on small inputs, and the theorems at them.
mod Lists
mod Sets
mod Hosts
mod Keys
mod Values
mod Sessions
mod Wire
mod Trees
mod Channels
mod Strings
mod Scores
mod Filters
mod Waiting
