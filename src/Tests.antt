-- ===== src/Tests.antt =====
-- Runs of the model on small inputs.
mod Bytes
mod Runs
mod Tables
mod Volumes
mod Contents
mod Files
mod Disks
mod Paths
