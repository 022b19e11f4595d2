-- ===== src/Tests.antt =====
-- Runs of the definitions on concrete rings, and the theorems applied to them.
mod Arch
mod Cp
mod Data
mod Os
mod Sqe
mod Exit
mod Provided
mod Setup
mod Submission
mod Completion
mod Wait
mod Register
mod BufRing
mod Recvmsg
mod Udp
mod LinkCp
mod Version
