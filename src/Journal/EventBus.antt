-- ===== src/Journal/EventBus.antt =====
-- recon/orchestrator/events.py: the queues of the subscribers and the replay buffer of each scan.
use recon_platform.Prelude.{
  ℕ, zero, suc, ◌-◌, ◌≤◌, ltb, ◌==◌, ◌≡◌, String, str_eq, List, [], ◌∷◌, ◌++◌, length, drop,
  if◌then◌else◌, Bool-cases, inl, inr, arith, All, All-concat, length-append,
}

pub data BusEvent : Type 0 where
  synced : BusEvent
  event : String → BusEvent

-- A queue of a subscriber: its scan, and what waits in it, the oldest first.
pub record Queue : Type 0 where
  pub id : ℕ
  pub scan_run_id : String
  pub waiting : List BusEvent

pub record Bus : Type 0 where
  pub queues : List Queue
  pub recent : List (String × List BusEvent)

abbrev max_queue : ℕ
max_queue = 500

-- `put_nowait`; a full queue loses the event.
abbrev put : BusEvent → List BusEvent → List BusEvent
put e waiting = if ltb (length waiting) max_queue then waiting ++ e ∷ [] else waiting

put_all : List BusEvent → List BusEvent → List BusEvent
put_all [] waiting = waiting
put_all (e ∷ es) waiting = put_all es (put e waiting)

unfoldable pub recent_of : String → List (String × List BusEvent) → List BusEvent
recent_of id [] = []
recent_of id ((other, buffer) ∷ rest) = if str_eq other id then buffer else recent_of id rest

-- `subscribe`: the replay buffer, then the mark of its end.
unfoldable pub subscribe : ℕ → String → Bus → Bus
unfolding put_all recent_of
subscribe q id b = record b {
  queues =
      b.queues
      ++ record {
        id = q;
        scan_run_id = id;
        waiting = put synced (put_all (recent_of id b.recent) []);
      }
        ∷ [];
}

drop_queue : ℕ → List Queue → List Queue
drop_queue q [] = []
drop_queue q (x ∷ xs) = let rest = drop_queue q xs in if x.id == q then rest else x ∷ rest

-- `unsubscribe`
unfoldable pub unsubscribe : ℕ → Bus → Bus
unfolding drop_queue
unsubscribe q b = record b { queues = drop_queue q b.queues }

-- `del buf[:-100]`
abbrev last_hundred : List BusEvent → List BusEvent
last_hundred buffer = if ltb 100 (length buffer) then drop (length buffer - 100) buffer else buffer

remember : String → BusEvent → List (String × List BusEvent) → List (String × List BusEvent)
remember id e [] = (id, e ∷ []) ∷ []
remember id e ((other, buffer) ∷ rest) =
    let more = remember id e rest in
    if str_eq other id
    then (other, last_hundred (buffer ++ e ∷ [])) ∷ rest
    else (other, buffer) ∷ more

deliver : String → BusEvent → List Queue → List Queue
deliver id e [] = []
deliver id e (q ∷ qs) =
    let rest = deliver id e qs in
    if str_eq q.scan_run_id id then record q { waiting = put e q.waiting } ∷ rest else q ∷ rest

-- `publish`
unfoldable pub publish : String → BusEvent → Bus → Bus
unfolding remember deliver
publish id e b = record { queues = deliver id e b.queues; recent = remember id e b.recent }

forget : String → List (String × List BusEvent) → List (String × List BusEvent)
forget id [] = []
forget id ((other, buffer) ∷ rest) =
    let more = forget id rest in if str_eq other id then more else (other, buffer) ∷ more

-- `clear`
unfoldable pub clear : String → Bus → Bus
unfolding forget
clear id b = record b { recent = forget id b.recent }

pub data BusCall : Type 0 where
  subscribing : ℕ → String → BusCall
  leaving : ℕ → BusCall
  publishing : String → BusEvent → BusCall
  clearing : String → BusCall

unfoldable pub bus_calls : List BusCall → Bus → Bus
bus_calls [] b = b
bus_calls (subscribing q id ∷ cs) b = bus_calls cs (subscribe q id b)
bus_calls (leaving q ∷ cs) b = bus_calls cs (unsubscribe q b)
bus_calls (publishing id e ∷ cs) b = bus_calls cs (publish id e b)
bus_calls (clearing id ∷ cs) b = bus_calls cs (clear id b)

-- No queue holds more than 500 events, no replay buffer more than 100.
pub record IsBounded (b : Bus) : Type 0 where
  pub queues : All (λ q. length q.waiting ≤ 500) b.queues
  pub buffers : All (λ r. length r.1 ≤ 100) b.recent

put-length :
    (e : BusEvent) (waiting : List BusEvent) → length waiting ≤ 500 → length (put e waiting) ≤ 500
put-length e waiting h = elim (Bool-cases (ltb (length waiting) 500)) [
  | inl k ↦ rw (k, length-append waiting (e ∷ [])) (ground (arith, k))
  | inr k ↦ rw k h
]

put_all-length :
    (es waiting : List BusEvent) → length waiting ≤ 500 → length (put_all es waiting) ≤ 500
unfolding put_all
put_all-length [] waiting h = h
put_all-length (e ∷ es) waiting h = put_all-length es (put e waiting) (put-length e waiting h)

length-drop : (n : ℕ) (es : List BusEvent) → length (drop n es) ≡ length es - n
length-drop zero es = omega arith
length-drop (suc n) [] = omega arith
length-drop (suc n) (e ∷ es) = omega (arith, length-drop n es)

last_hundred-length : (buffer : List BusEvent) → length (last_hundred buffer) ≤ 100
last_hundred-length buffer = elim (Bool-cases (ltb 100 (length buffer))) [
  | inl k ↦ rw (k, length-drop (length buffer - 100) buffer) (omega arith)
  | inr k ↦ rw k (ground (arith, k))
]

drop_queue-All :
    (q : ℕ) (qs : List Queue)
    → All (λ x. length x.waiting ≤ 500) qs
    → All (λ x. length x.waiting ≤ 500) (drop_queue q qs)
unfolding drop_queue
drop_queue-All q [] h = tt
drop_queue-All q (x ∷ qs) (p, h) = elim (Bool-cases (x.id == q)) [
  | inl k ↦ rw k (drop_queue-All q qs h)
  | inr k ↦ rw k (p, drop_queue-All q qs h)
]

deliver-All :
    (id : String) (e : BusEvent) (qs : List Queue)
    → All (λ x. length x.waiting ≤ 500) qs
    → All (λ x. length x.waiting ≤ 500) (deliver id e qs)
unfolding deliver
deliver-All id e [] h = tt
deliver-All id e (x ∷ qs) (p, h) = elim (Bool-cases (str_eq x.scan_run_id id)) [
  | inl k ↦ rw k (put-length e x.waiting p, deliver-All id e qs h)
  | inr k ↦ rw k (p, deliver-All id e qs h)
]

remember-All :
    (id : String) (e : BusEvent) (rows : List (String × List BusEvent))
    → All (λ r. length r.1 ≤ 100) rows
    → All (λ r. length r.1 ≤ 100) (remember id e rows)
unfolding remember
remember-All id e [] h = (omega arith, tt)
remember-All id e ((other, buffer) ∷ rows) (p, h) = elim (Bool-cases (str_eq other id)) [
  | inl k ↦ rw k (last_hundred-length (buffer ++ e ∷ []), h)
  | inr k ↦ rw k (p, remember-All id e rows h)
]

forget-All :
    (id : String) (rows : List (String × List BusEvent))
    → All (λ r. length r.1 ≤ 100) rows
    → All (λ r. length r.1 ≤ 100) (forget id rows)
unfolding forget
forget-All id [] h = tt
forget-All id ((other, buffer) ∷ rows) (p, h) = elim (Bool-cases (str_eq other id)) [
  | inl k ↦ rw k (forget-All id rows h)
  | inr k ↦ rw k (p, forget-All id rows h)
]

-- However many events are published and whoever subscribes, leaves or is slow to read: if no queue
-- holds more than 500 events and no replay buffer more than 100 at first, none ever does.
pub bus_calls-IsBounded : (cs : List BusCall) (b : Bus) → IsBounded b → IsBounded (bus_calls cs b)
unfolding bus_calls subscribe unsubscribe publish clear
bus_calls-IsBounded [] b h = h
bus_calls-IsBounded (subscribing q id ∷ cs) b h =
    bus_calls-IsBounded cs (subscribe q id b) (record {
      queues =
          All-concat _ b.queues h.queues
            (put-length synced _ (put_all-length (recent_of id b.recent) [] (omega arith)));
      buffers = h.buffers;
    })
bus_calls-IsBounded (leaving q ∷ cs) b h =
    bus_calls-IsBounded cs (unsubscribe q b)
      (record { queues = drop_queue-All q b.queues h.queues; buffers = h.buffers })
bus_calls-IsBounded (publishing id e ∷ cs) b h = bus_calls-IsBounded cs (publish id e b) (record {
  queues = deliver-All id e b.queues h.queues;
  buffers = remember-All id e b.recent h.buffers;
})
bus_calls-IsBounded (clearing id ∷ cs) b h =
    bus_calls-IsBounded cs (clear id b)
      (record { queues = h.queues; buffers = forget-All id b.recent h.buffers })
