-- ===== src/Memcached/Tests/Crawler.antt =====
-- src/items.c at small inputs: the crawler visits an item that was stored before a flush.
use mage_artifact_baseline.Common.{ℕ}
use mage_artifact_baseline.Memcached.Items.{Settings, Store, item_at, put_item}
use mage_artifact_baseline.Memcached.Items.Unlink.{less}
use mage_artifact_baseline.Memcached.Tests.{number_keys}
use mage_artifact_baseline.Memcached.Tests.Items.{settings, linked}

abbrev flushed : Settings
flushed = record settings { oldest_live = 120; current_time = 150 }

-- The caller of the link has given its reference back.
abbrev released : Store ℕ
released = put_item 1 (less (item_at linked 1)) linked
