-- ===== src/Tests/Messages.antt =====
-- Concrete messages, literals and buses.
use g_agent.Base.{ℕ, suc, List, [], ◌∷◌, true, none, some, pos, ◌≡◌}
use g_agent.Messaging.Mq.{Calls, PullCache}
use g_agent.Messaging.Message.{acl_message, inform, cfp}
use g_agent.Messaging.Mock.{empty_bus, queue}
use g_agent.Messaging.Mock.Refinement.{
  Call, sends, receives, unlinks, run_bus, run_spec, run_bus-run_spec,
}

abbrev calls : List Call
calls =
    sends "bob" (acl_message cfp)
    ∷ sends "eve" (acl_message inform)
    ∷ receives "bob"
    ∷ unlinks "eve"
    ∷ receives "eve"
    ∷ []

run_bus-run_spec_example : run_bus calls empty_bus ≡ run_spec calls (λ k. queue k empty_bus)
run_bus-run_spec_example = run_bus-run_spec calls empty_bus

-- ZeroMQ with the count of the sockets that were opened.
abbrev pub counted_calls : Calls ℕ
counted_calls = record {
  open_pull = λ z. (some z, suc z);
  open_push = λ z. (some z, suc z);
  bind = λ sock ep z. (true, z);
  connect = λ sock ep z. (true, z);
  send = λ sock raw z. (true, z);
  close = λ sock z. z;
  unlink = λ file z. z;
  getenv = λ var. none;
  upper = λ name. name;
  hash = λ name. 7;
  ipc_file = λ ep. none;
  ams = λ text z. none;
}

abbrev pub no_sockets : PullCache
no_sockets = record { sockets = []; endpoints = []; pid = pos 9 }

abbrev pub bob_bound : PullCache
bob_bound = record {
  sockets = ("bob", 3) ∷ [];
  endpoints = ("bob", "ipc:///tmp/acl_bob") ∷ [];
  pid = pos 9;
}
