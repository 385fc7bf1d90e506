-- ===== src/Tests.antt =====
-- A small cluster on which the development runs, the instances of the theorems, and test runs.
mod Cluster
mod Keys
mod Witnesses
mod Slots
mod Managers
mod Snapshots
mod Accepted
mod Executions
mod Evictions
mod Timeouts
mod Restarts
mod Progress
mod Finishes
mod Goroutines
mod Outcomes
mod Mutexes
