-- ===== src/Jsonrpc.antt =====
-- core/jsonrpc.c: JSON-RPC requests over the tokens of a JSON text.
pub mod Tokens
pub mod Schema
pub mod Types
pub mod Numbers
pub mod Client
pub mod Request
pub mod Answers
pub mod Dispatch
pub mod Methods
