-- ===== src/Tests/Submit.antt =====
-- A packet with a handler and one without, for a session whose queue holds one job.
use iocpnetwork_engine.Prelude.{
  ◌≡◌, refl, true, false, none, some, [], ◌∷◌, arith, ◌==◌, if◌then◌else◌,
}
use iocpnetwork_engine.Session.SessionJobQueue.{server}
use iocpnetwork_engine.Session.SessionJobQueue.Fifo.{IsValid}
use iocpnetwork_engine.Server.SubmitJob.{
  PacketHandlerTable, Setup, Target, server_submit_packet_job, client_submit_packet_job,
}
use iocpnetwork_engine.Server.SubmitJob.Ownership.{
  Owned, server_submit_packet_job_lem, client_submit_packet_job_lem,
}

-- Id 2001 has the handler at 900.
abbrev table : PacketHandlerTable
table = λ i. if i == 2001 then some 900 else none

abbrev parts : Setup
parts = record {
  handlers = some table;
  job_pool = true;
  has_ready_queue = true;
  packet_pools = true;
  job = some 2;
}

abbrev target : Target
target = record {
  address = 70;
  job_queue = record {
    session_role = server;
    head = some 1;
    tail = some 1;
    count = 1;
    peak_count = 1;
    stop_flag = false;
  };
  memory = record {
    jobs = λ p. record { next = none; packet = some 100 };
    released_packets = [];
    released_jobs = [];
    violations = 0;
    wakes = 0;
  };
  processing = false;
  ready_queue = record {
    allocated = true;
    slots = none ∷ (none ∷ []);
    capacity = 2;
    head = 0;
    tail = 0;
    count = 0;
    stop_flag = false;
  };
}

target-IsValid : IsValid target.job_queue target.memory (1 ∷ [])
target-IsValid = record {
  queue = record { chain = (refl, refl); distinct = (tt, tt); ends = refl; counted = refl };
  peak = omega arith;
}

server_submit_packet_job_example :
    Owned parts target (1 ∷ []) 555 (server_submit_packet_job parts target 2001 555)
server_submit_packet_job_example =
    server_submit_packet_job_lem parts target (1 ∷ []) 2001 555 refl target-IsValid
      (omega arith, tt)

client_submit_packet_job_example :
    Owned parts target (1 ∷ []) 555 (client_submit_packet_job parts true target 2001 555)
client_submit_packet_job_example =
    client_submit_packet_job_lem parts true target (1 ∷ []) 2001 555 refl target-IsValid
      (omega arith, tt)

-- Without a handler the packet goes back.
dropped :
    let (said, t) = server_submit_packet_job parts target 2002 555 in
    (said ≡ false) × (t.memory.released_packets ≡ 555 ∷ []) × (t.job_queue.count ≡ 1)
unfolding server_submit_packet_job
dropped = (refl, refl, refl)
