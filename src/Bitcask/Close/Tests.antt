-- ===== src/Bitcask/Close/Tests.antt =====
-- Dropping a store with one key.
use bitcask.Bitcask.Tests.{crc, calm}
