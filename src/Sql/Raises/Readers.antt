-- ===== src/Sql/Raises/Readers.antt =====
-- The statements of blindrange/sql.py raise while they are read: Unsupported, or KeyError in WHERE.
use blindrange.Sql.Reads.{Reads}
use blindrange.Sql.Session.{Session}
