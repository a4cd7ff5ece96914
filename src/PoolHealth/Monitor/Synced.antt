-- ===== src/PoolHealth/Monitor/Synced.antt =====
-- The handlers of the monitor and the snapshot that they publish.
use sing_box_webui.PoolHealth.Snapshots.{Monitor}
