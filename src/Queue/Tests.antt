-- ===== src/Queue/Tests.antt =====
-- Runs of the two pools, and the theorems at them.
mod CodelRun
mod CodelLaw
mod PoolRun
mod Cpuset
mod WaitRun
mod WakeRun
mod CpuRun
