-- ===== src/Common/Wire.antt =====
-- The headers of net/rpc, `rpc.Request` and `rpc.Response`, which the codecs carry, and
-- the deadlines of a connection.
use myrpc.Base.{ℕ, Bytes, ℤ}

pub record Request : Type 0 where
  pub service_method : Bytes
  pub seq : ℕ

pub record Response : Type 0 where
  pub service_method : Bytes
  pub seq : ℕ
  pub error : Bytes

-- SetDeadline, SetReadDeadline and SetWriteDeadline, with the time from now.
pub data Deadline : Type 0 where
  both : ℤ → Deadline
  for_reading : ℤ → Deadline
  for_writing : ℤ → Deadline
