-- ===== src/Core/Archive.antt =====
-- What is kept of a round that ends (controllers/core/history.go).
use cloudrun.Types.{CommonStatus}
use cloudrun.Cluster.Client.{History}

-- The history that a status gives.
abbrev pub history_of : {T : Type 0} → T → CommonStatus → History T
history_of spec b = record {
  round = b.current_round;
  status = b.status;
  spec = spec;
  start_time = b.start_time;
  end_time = b.end_time;
}
