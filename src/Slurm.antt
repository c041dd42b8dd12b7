-- ===== src/Slurm.antt =====
-- internal/slurm: the programs that Slurm runs to bring nodes up and down, the sweep for orphans, and the
-- calls of scontrol.
pub mod Bridge
pub mod Holds
pub mod Suspend
pub mod Sweep
pub mod Examples
pub mod Admission
pub mod Shape
pub mod Resume
pub mod Scontrol
