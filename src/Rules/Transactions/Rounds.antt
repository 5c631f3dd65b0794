-- ===== src/Rules/Transactions/Rounds.antt =====
-- The loops of the rules end: as many rounds as tokens are left are enough, though the loops jump.
use dbopt.Base.Bytes.{Bytes}
