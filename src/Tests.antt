-- ===== src/Tests.antt =====
-- Examples on concrete inputs of the theorems about the code.
mod Data
mod Ledger
mod Admission
mod Protocol
mod NodeHelper
mod Identity
mod Resource
mod Command
mod Retries
mod Stream
mod Ipc
mod Dispatch
mod Json
mod Service
mod Sync
mod Locks
mod Connections
mod Daemon
mod Accounts
mod Migration
mod Executor
mod Outbound
mod Channel
mod Server
