-- ===== src/Prelude/Result.antt =====
-- What a C function of this program returns as 0 and as -1.
pub data Code : Type 0 where
  ok err : Code
