-- ===== src/Tests/Databases.antt =====
-- Examples for the collectors of services, and for internal/collectors/core/fs.go.
use prostometrics_agent.Base.{
  ℕ, ◌+◌, ◌*◌, ◌/◌, ◌≤◌, true, false, List, [], ◌∷◌, ◌++◌, none, some, codes, ◌≡◌, refl, arith, ltb,
  if◌then◌else◌, ◌===◌, ◌&&◌, ◌-◌,
}
use prostometrics_agent.Base.Integers.{pos}
use prostometrics_agent.Core.Fs.{Statfs, emit_fs_stat}
use prostometrics_agent.Core.Fs.Sizes.{SendsSizes, fs_sizes_lem}
use prostometrics_agent.Metrics.{label, value, millis}
use prostometrics_agent.Mongo as Mongo
use prostometrics_agent.Mongo.Latency.{emit_latency_lem}
use prostometrics_agent.Postgres.{normalize_state_label}
use prostometrics_agent.Rabbitmq as Rabbitmq
use prostometrics_agent.Retry.{Turn, new_slot, settle, collect_turns}
use prostometrics_agent.Retry.Backoff.{backs_off}
use prostometrics_agent.Text.Space.{trim_space, trim_with, space_width, space_width_back}

-- A server that cannot be reached, in the round at 100 and in one at 130.
abbrev unreachable : Mongo.Answers
unreachable = record { connects = false; pings = false; status = none }

abbrev no_client : Mongo.InstanceState
no_client = record {
  config = record { uri = codes "mongodb://db"; label = codes "db" };
  has_client = false;
  prev = none;
}

abbrev first_turn : Turn Mongo.Answers Mongo.InstanceState
first_turn = record { cancelled = false; answers = unreachable; slot = new_slot no_client }

abbrev later_turn : Turn Mongo.Answers Mongo.InstanceState
later_turn = record {
  cancelled = false;
  answers = unreachable;
  slot = record { state = no_client; next_attempt = 160 };
}

abbrev same : Mongo.InstanceState → Mongo.InstanceState
same s = s

fails : (Mongo.collect_instance unreachable no_client).failed ≡ true
unfolding Mongo.collect_instance
fails = refl

waits :
    later_turn.slot
    ≡ settle 60 Mongo.collect_instance same 100 first_turn.slot
        (Mongo.collect_instance unreachable no_client)
unfolding Mongo.collect_instance settle
waits = refl

backs_off_example :
    ((collect_turns 60 Mongo.collect_instance same 100 (first_turn ∷ [])).1
      ≡ (collect_turns 60 Mongo.collect_instance same 100 []).1
        ++ later_turn.slot ∷ (collect_turns 60 Mongo.collect_instance same 100 []).1)
    × (later_turn.slot.next_attempt ≡ 100 + 60)
    × (collect_turns 60 Mongo.collect_instance same 130 (later_turn ∷ []) ≡ (
      (collect_turns 60 Mongo.collect_instance same 130 []).0,
      (collect_turns 60 Mongo.collect_instance same 130 []).1
          ++ later_turn.slot ∷ (collect_turns 60 Mongo.collect_instance same 130 []).1,
    ))
backs_off_example =
    backs_off 60 Mongo.collect_instance same 100 130 first_turn later_turn [] [] [] [] tt refl refl
      fails tt waits (omega arith)

emit_latency_lem_example :
    Mongo.emit_latency
      (label (codes "instance") (codes "db"))
      (codes "reads")
      (record { latency = pos 1000; ops = pos 2 })
      (record { latency = pos 9000; ops = pos 6 })
    ≡ (if ltb 2 6 && ltb 1000 9000
        then value
            (codes "mongo.op_latency_ms")
            (millis (9000 - 1000) (6 - 2))
            (Mongo.typed (label (codes "instance") (codes "db")) (codes "reads"))
          ∷ []
        else [])
emit_latency_lem_example =
    emit_latency_lem (label (codes "instance") (codes "db")) (codes "reads") 1000 2 9000 6
      (omega arith) (omega arith)

state_label :
    normalize_state_label (codes "fastpath function call") ≡ codes "fastpath_function_call"
unfolding normalize_state_label trim_space ◌===◌ trim_with space_width space_width_back
state_label = refl

-- A broker with one queue, which was not among those that were reported.
abbrev broker : Rabbitmq.Answers
broker = record {
  overview = λ endpoint. Rabbitmq.answered 200 (
      some (record {
        connections = pos 1;
        channels = pos 1;
        queues = pos 2;
        consumers = pos 1;
        messages = pos 3;
        ready = pos 3;
        unacknowledged = pos 0;
        publish = pos 9;
        deliver_get = pos 6;
        ack = pos 6;
        redeliver = pos 0;
      }));
  listing = λ endpoint. Rabbitmq.answered 200 (
      some (
        Rabbitmq.page (
          record {
            name = codes "jobs";
            vhost = codes "/";
            ready = pos 3;
            unacknowledged = pos 0;
            consumers = pos 1;
          }
          ∷ [])));
}

abbrev drained : Rabbitmq.InstanceState
drained = record {
  config = record { url = codes "http://mq:15672/"; label = codes "mq" };
  last_queues = codes "mail" ∷ [];
}

abbrev as_listed : List Rabbitmq.QueueInfo → List Rabbitmq.QueueInfo
as_listed queues = queues

abbrev disk : Statfs
disk = record { blocks = 1000; bsize = 4096; bfree = 333; files = 500; ffree = 20 }

fs_sizes_lem_example :
    (used : ℕ) × (free : ℕ) × (SendsSizes
        (codes "/dev/sda1")
        (codes "/")
        disk
        used
        free
        (emit_fs_stat (codes "/dev/sda1") (codes "/") (some disk))
      × (free ≡ 333 * 4096 / 1024)
      × (used + free ≤ 1000 * 4096 / 1024)
      × (1000 * 4096 / 1024 ≤ used + free + 1))
fs_sizes_lem_example =
    fs_sizes_lem (codes "/dev/sda1") (codes "/") disk (omega arith, omega arith, omega arith)
