-- ===== src/Memcache/Stats.antt =====
-- `get_stats` of memcache_server.py.
use honeypots.Prelude.{ℕ, String, List, [], ◌∷◌, ◌++◌}
use honeypots.Python.Bytes.{Bytes, Text, codes, str}
use honeypots.Python.Utf8.{encode}

-- What `randint`, `uniform` and `time` give in one call; of a rounded float, its text.
pub record Draws : Type 0 where
  pub items : ℕ
  pub pid : ℕ
  pub uptime : ℕ
  pub time : ℕ
  pub rusage_user : Text
  pub rusage_system : Text
  pub curr_connections : ℕ
  pub bytes_read : ℕ
  pub bytes_written : ℕ
  pub threads : ℕ
  pub lru_crawler_starts : ℕ
  pub lru_maintainer_juggles : ℕ
  pub bytes_ : ℕ
  pub crawler_items_checked : ℕ
  pub moves_to_cold : ℕ
  pub moves_to_warm : ℕ

unfoldable pub stats : Draws → List (String × Text)
unfolding str
stats d =
    ("pid", str d.pid)
    ∷ ("uptime", str d.uptime)
    ∷ ("time", str d.time)
    ∷ ("version", codes "1.5.6")
    ∷ ("libevent", codes "2.1.8-stable")
    ∷ ("pointer_size", str 64)
    ∷ ("rusage_user", d.rusage_user)
    ∷ ("rusage_system", d.rusage_system)
    ∷ ("max_connections", str 1024)
    ∷ ("curr_connections", str d.curr_connections)
    ∷ ("total_connections", str 5)
    ∷ ("rejected_connections", str 0)
    ∷ ("connection_structures", str 2)
    ∷ ("reserved_fds", str 20)
    ∷ ("cmd_get", str 0)
    ∷ ("cmd_set", str 40)
    ∷ ("cmd_flush", str 0)
    ∷ ("cmd_touch", str 0)
    ∷ ("get_hits", str 0)
    ∷ ("get_misses", str 0)
    ∷ ("get_expired", str 0)
    ∷ ("get_flushed", str 0)
    ∷ ("delete_misses", str 0)
    ∷ ("delete_hits", str 0)
    ∷ ("incr_misses", str 0)
    ∷ ("incr_hits", str 0)
    ∷ ("decr_misses", str 0)
    ∷ ("decr_hits", str 0)
    ∷ ("cas_misses", str 0)
    ∷ ("cas_hits", str 0)
    ∷ ("cas_badval", str 0)
    ∷ ("touch_hits", str 0)
    ∷ ("touch_misses", str 0)
    ∷ ("auth_cmds", str 0)
    ∷ ("auth_errors", str 0)
    ∷ ("bytes_read", str d.bytes_read)
    ∷ ("bytes_written", str d.bytes_written)
    ∷ ("limit_maxbytes", str 33554432)
    ∷ ("accepting_conns", str 1)
    ∷ ("listen_disabled_num", str 0)
    ∷ ("time_in_listen_disabled_us", str 0)
    ∷ ("threads", str d.threads)
    ∷ ("conn_yields", str 0)
    ∷ ("hash_power_level", str 16)
    ∷ ("hash_bytes", str 524288)
    ∷ ("hash_is_expanding", codes "False")
    ∷ ("slab_reassign_rescues", str 0)
    ∷ ("slab_reassign_chunk_rescues", str 0)
    ∷ ("slab_reassign_evictions_nomem", str 0)
    ∷ ("slab_reassign_inline_reclaim", str 0)
    ∷ ("slab_reassign_busy_items", str 0)
    ∷ ("slab_reassign_busy_deletes", str 0)
    ∷ ("slab_reassign_running", codes "False")
    ∷ ("slabs_moved", str 0)
    ∷ ("lru_crawler_running", str 0)
    ∷ ("lru_crawler_starts", str d.lru_crawler_starts)
    ∷ ("lru_maintainer_juggles", str d.lru_maintainer_juggles)
    ∷ ("malloc_fails", str 0)
    ∷ ("log_worker_dropped", str 0)
    ∷ ("log_worker_written", str 0)
    ∷ ("log_watcher_skipped", str 0)
    ∷ ("log_watcher_sent", str 0)
    ∷ ("bytes", str d.bytes_)
    ∷ ("curr_items", str d.items)
    ∷ ("total_items", str d.items)
    ∷ ("slab_global_page_pool", str 0)
    ∷ ("expired_unfetched", str 0)
    ∷ ("evicted_unfetched", str 0)
    ∷ ("evicted_active", str 0)
    ∷ ("evictions", str 0)
    ∷ ("reclaimed", str 0)
    ∷ ("crawler_reclaimed", str 0)
    ∷ ("crawler_items_checked", str d.crawler_items_checked)
    ∷ ("lrutail_reflocked", str 0)
    ∷ ("moves_to_cold", str d.moves_to_cold)
    ∷ ("moves_to_warm", str d.moves_to_warm)
    ∷ ("moves_within_lru", str 0)
    ∷ ("direct_reclaims", str 0)
    ∷ ("lru_bumps_dropped", str 0)
    ∷ []

-- the loop over the items
unfoldable pub stat_lines : List (String × Text) → Text
stat_lines [] = codes "END\r\n"
stat_lines ((key, value) ∷ items) =
    codes "STAT " ++ (codes key ++ (codes " " ++ (value ++ (codes "\r\n" ++ stat_lines items))))

unfoldable pub get_stats : Draws → Bytes
unfolding encode
get_stats d = encode (stat_lines (stats d))
