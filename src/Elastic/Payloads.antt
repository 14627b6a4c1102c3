-- ===== src/Elastic/Payloads.antt =====
-- The constant documents of elastic_server.py. `float_ 100` stands for the float 100.0.
use honeypots.Prelude.{false, String, List, [], ◌∷◌}
use honeypots.Python.Bytes.{codes}
use honeypots.Python.Value.{
  Value, Items, bool, int, float_, text, array, dict, nil, cons, fields, item, word,
}

abbrev texts : List String → Items
texts [] = nil
texts (t ∷ ts) = cons (text (codes t)) (texts ts)

abbrev pub normal_payload : Value
normal_payload = dict (
    fields (
      word "name" "045dffec8b60"
      ∷ word "cluster_name" "R&DBackup"
      ∷ word "cluster_uuid" "09cf5BKcTCG2U8z2ndwGEw"
      ∷ item "version" (
          dict (
            fields (
              word "number" "7.12.1"
              ∷ word "build_flavor" "default"
              ∷ word "build_type" "en"
              ∷ word "build_hash" "3186837139b9c6b6d23c3200870651f10d3343b7"
              ∷ word "build_date" "2021-04-20T20:56:39.040728659Z"
              ∷ item "build_snapshot" (bool false)
              ∷ word "lucene_version" "8.8.0"
              ∷ word "minimum_wire_compatibility_version" "6.8.0"
              ∷ word "minimum_index_compatibility_version" "6.0.0-beta1"
              ∷ [])))
      ∷ word "tagline" "You Know, for Search"
      ∷ []))

abbrev pub nodes_payload : Value
nodes_payload = dict (
    fields (
      item "_nodes" (
        dict
          (fields (item "total" (int 1) ∷ item "successful" (int 1) ∷ item "failed" (int 0) ∷ [])))
      ∷ word "cluster_name" "R&DBackup"
      ∷ item "nodes" (
          dict (
            fields (
              item "rvyTV3xvTgyt74ti4u12bw" (
                dict (
                  fields (
                    word "name" "045dffec8b60"
                    ∷ word "transport_address" "172.17.0.2:9300"
                    ∷ word "host" "172.17.0.2"
                    ∷ word "src_ip" "172.17.0.2"
                    ∷ word "version" "7.12.1"
                    ∷ word "build_flavor" "default"
                    ∷ word "build_type" "en"
                    ∷ word "build_hash" "3186837139b9c6b6d23c3200870651f10d3343b7"
                    ∷ item "roles" (
                        array (
                          texts (
                            "data" ∷ "data_cold" ∷ "data_content" ∷ "data_frozen" ∷ "data_hot"
                            ∷ "data_warm" ∷ "ingest" ∷ "master" ∷ "ml" ∷ "remote_cluster_client"
                            ∷ "transform" ∷ [])))
                    ∷ item "attributes" (
                        dict (
                          fields (
                            word "ml.machine_memory" "16685318144"
                            ∷ word "xpack.installed" "true"
                            ∷ word "transform.node" "true"
                            ∷ word "ml.max_open_jobs" "20"
                            ∷ word "ml.max_jvm_size" "8342470656"
                            ∷ [])))
                    ∷ item "process" (
                        dict (
                          fields (
                            item "refresh_interval_in_millis" (int 1000)
                            ∷ item "id" (int 7)
                            ∷ item "mlockall" (bool false)
                            ∷ [])))
                    ∷ [])))
              ∷ item "os" (
                  dict (
                    fields (
                      item "refresh_interval_in_millis" (int 1000)
                      ∷ word "name" "Linux"
                      ∷ word "pretty_name" "CentOS Linux 8"
                      ∷ word "arch" "amd64"
                      ∷ word "version" "5.8.0-53-generic"
                      ∷ item "available_processors" (int 32)
                      ∷ item "allocated_processors" (int 8)
                      ∷ [])))
              ∷ item "process" (
                  dict (
                    fields (
                      item "refresh_interval_in_millis" (int 1000)
                      ∷ item "id" (int 7)
                      ∷ item "mlockall" (bool false)
                      ∷ [])))
              ∷ [])))
      ∷ []))

abbrev pub cluster_health_payload : Value
cluster_health_payload = dict (
    fields (
      word "cluster_name" "R&DBackup"
      ∷ word "status" "green"
      ∷ item "timed_out" (bool false)
      ∷ item "number_of_nodes" (int 1)
      ∷ item "number_of_data_nodes" (int 1)
      ∷ item "active_primary_shards" (int 0)
      ∷ item "active_shards" (int 0)
      ∷ item "relocating_shards" (int 0)
      ∷ item "initializing_shards" (int 0)
      ∷ item "unassigned_shards" (int 0)
      ∷ item "delayed_unassigned_shards" (int 0)
      ∷ item "number_of_pending_tasks" (int 0)
      ∷ item "number_of_in_flight_fetch" (int 0)
      ∷ item "task_max_waiting_in_queue_millis" (int 0)
      ∷ item "active_shards_percent_as_number" (float_ 100)
      ∷ []))
