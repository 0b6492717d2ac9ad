-- ===== src/Sdk.antt =====
-- include/client/sdk.h and src/client/sdk.cpp: the client. The namenodes and the datanodes that it
-- calls over brpc, its hashes and its clock are parameters.
pub mod Transfer
pub mod Indexes
pub mod Read
pub mod Write
pub mod Fsync
pub mod Whole
pub mod Session
pub mod Connect
pub mod Renewal
pub mod Calls
