-- ===== src/Dcnet/Bridge/Writes.antt =====
-- What the calls of a bridge write to its log, whatever becomes of the writes.
use chrono_shift.Prelude.{List, [], ◌∷◌}
use chrono_shift.Prelude.Keys.{bytes_eq}
use chrono_shift.Primitives.{Hash}
use chrono_shift.Storage.{WalOperation, Json}
use chrono_shift.Dcnet.Bridge.{F2fDcNetBridge, Env}
use chrono_shift.Dcnet.Bridge.Logging.{log_wal}

module _ (h : Hash) (json : Json) where
  -- One operation after the other is written.
  unfoldable pub log_all : Env → List WalOperation → F2fDcNetBridge → F2fDcNetBridge
  log_all env [] b = b
  log_all env (op ∷ ops) b = log_all env ops (log_wal h json env op b)
