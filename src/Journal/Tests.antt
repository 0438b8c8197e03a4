-- ===== src/Journal/Tests.antt =====
-- Runs of the audit log and of the event bus.
use recon_platform.Prelude.{◌≡◌, ◌≤◌, refl, none, some, [], ◌∷◌, false, length, All}
use recon_platform.Scope.{in_scope}
use recon_platform.Journal.AuditLog.{
  IsAnswer, LogEntry, Query, record_entry, list_entries, list_entries-IsAnswer,
  list_entries-record_entry,
}
use recon_platform.Journal.EventBus.{
  synced, event, IsBounded, subscribing, leaving, publishing, clearing, subscribe, publish,
  bus_calls, bus_calls-IsBounded,
}

abbrev row : LogEntry
row = record {
  engagement_id = 4;
  module_name = "dns";
  target = "www.example.com";
  in_scope_status = in_scope;
  override_used = false;
  roe_config_hash = "h";
}

abbrev query : Query
query = record {
  engagement_id = 4;
  module_name = some "dns";
  in_scope_status = none;
  override_only = false;
  limit = 5000;
  offset = 0;
}

one_row : list_entries query (record_entry (record row { engagement_id = 5 }) (row ∷ [])) ≡ row ∷ []
unfolding list_entries record_entry
one_row = refl

list_entries-IsAnswer_example :
    All (IsAnswer query) (list_entries query (row ∷ []))
    × (length (list_entries query (row ∷ [])) ≤ 1000)
list_entries-IsAnswer_example = list_entries-IsAnswer query (row ∷ [])

list_entries-record_entry_example :
    list_entries query (record_entry row (row ∷ []))
    ≡ row ∷ list_entries (record query { limit = 999 }) (row ∷ [])
list_entries-record_entry_example = list_entries-record_entry query 999 row (row ∷ []) refl refl

replayed :
    (bus_calls
      (publishing "s" (event "started") ∷ subscribing 1 "s" ∷ [])
      (record { queues = []; recent = [] })).queues
    ≡ record { id = 1; scan_run_id = "s"; waiting = event "started" ∷ synced ∷ [] } ∷ []
unfolding bus_calls publish subscribe
replayed = refl

bus_calls-IsBounded_example : IsBounded (
    bus_calls
      (publishing "s" (event "started") ∷ subscribing 1 "s" ∷ clearing "s" ∷ leaving 1 ∷ [])
      (record { queues = []; recent = [] }))
bus_calls-IsBounded_example =
    bus_calls-IsBounded
      (publishing "s" (event "started") ∷ subscribing 1 "s" ∷ clearing "s" ∷ leaving 1 ∷ [])
      (record { queues = []; recent = [] }) (record { queues = tt; buffers = tt })
